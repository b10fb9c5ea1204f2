-- ===== src/Net/Link.antt =====
-- net.c: link_insmsg and link_remmsg, a link as a queue of at most LINK_BUFSZ messages.
use psim.Prelude.{◌==◌, if◌then◌else◌, [], ◌∷◌, ◌++◌, length, Option, none, some}
use psim.Net.State.{Msg, Link, link_bufsz}

-- link_insmsg; `none` is the return value -1.
unfoldable pub link_insmsg : Link → Msg → Option Link
link_insmsg link msg = if length link == link_bufsz then none else some (link ++ (msg ∷ []))

-- link_remmsg; `none` is NULL.
unfoldable pub link_remmsg : Link → Option (Msg × Link)
link_remmsg [] = none
link_remmsg (msg ∷ link) = some (msg, link)
