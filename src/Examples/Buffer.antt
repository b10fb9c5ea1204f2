-- ===== src/Examples/Buffer.antt =====
-- producer-consumer.c: the circular buffer, which the four programs share. MAXELEM is a parameter.
use psim.Prelude.{ℕ, ◌+◌, ◌-◌, List, get_or, set, replicate, bit_and}

-- ct, hd, tl and buf
pub record Ring : Type 0 where
  pub ct : ℕ
  pub hd : ℕ
  pub tl : ℕ
  pub buf : List ℕ

-- The static variables at the start
abbrev pub no_items : ℕ → Ring
no_items maxelem = record { ct = 0; hd = 0; tl = 0; buf = replicate maxelem 0 }

unfoldable pub enqueue : ℕ → Ring → ℕ → Ring
enqueue maxelem r item = record r {
  buf = set r.buf r.tl item;
  tl = bit_and (r.tl + 1) (maxelem - 1);
  ct = r.ct + 1;
}

-- The item that dequeue returns, and what it leaves
unfoldable pub dequeue_item : Ring → ℕ
dequeue_item r = get_or r.buf r.hd 0

unfoldable pub dequeue : ℕ → Ring → Ring
dequeue maxelem r = record r { hd = bit_and (r.hd + 1) (maxelem - 1); ct = r.ct - 1 }
