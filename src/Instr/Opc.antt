-- ===== src/Instr/Opc.antt =====
-- enum opcodes of instr.h: the enumerators that the datapath names.
use psim.Prelude.{ℕ}

abbrev pub special : ℕ
special = 0

abbrev pub regimm : ℕ
regimm = 1

abbrev pub j : ℕ
j = 2

abbrev pub jal : ℕ
jal = 3

abbrev pub beq : ℕ
beq = 4

abbrev pub bne : ℕ
bne = 5

abbrev pub blez : ℕ
blez = 6

abbrev pub bgtz : ℕ
bgtz = 7

abbrev pub addi : ℕ
addi = 8

abbrev pub addiu : ℕ
addiu = 9

abbrev pub slti : ℕ
slti = 10

abbrev pub sltiu : ℕ
sltiu = 11

abbrev pub andi : ℕ
andi = 12

abbrev pub ori : ℕ
ori = 13

abbrev pub xori : ℕ
xori = 14

abbrev pub lui : ℕ
lui = 15

abbrev pub cop0 : ℕ
cop0 = 16

abbrev pub cop1 : ℕ
cop1 = 17

abbrev pub cop2 : ℕ
cop2 = 18

abbrev pub cop1x : ℕ
cop1x = 19

abbrev pub beql : ℕ
beql = 20

abbrev pub bnel : ℕ
bnel = 21

abbrev pub blezl : ℕ
blezl = 22

abbrev pub bgtzl : ℕ
bgtzl = 23

abbrev pub special2 : ℕ
special2 = 28

abbrev pub jalx : ℕ
jalx = 29

abbrev pub special3 : ℕ
special3 = 31

abbrev pub lb : ℕ
lb = 32

abbrev pub lh : ℕ
lh = 33

abbrev pub lwl : ℕ
lwl = 34

abbrev pub lw : ℕ
lw = 35

abbrev pub lbu : ℕ
lbu = 36

abbrev pub lhu : ℕ
lhu = 37

abbrev pub lwr : ℕ
lwr = 38

abbrev pub sb : ℕ
sb = 40

abbrev pub sh : ℕ
sh = 41

abbrev pub swl : ℕ
swl = 42

abbrev pub sw : ℕ
sw = 43

abbrev pub swr : ℕ
swr = 46

abbrev pub cache : ℕ
cache = 47

abbrev pub ll : ℕ
ll = 48

abbrev pub lwc1 : ℕ
lwc1 = 49

abbrev pub lwc2 : ℕ
lwc2 = 50

abbrev pub pref : ℕ
pref = 51

abbrev pub ldc1 : ℕ
ldc1 = 53

abbrev pub ldc2 : ℕ
ldc2 = 54

abbrev pub sc : ℕ
sc = 56

abbrev pub swc1 : ℕ
swc1 = 57

abbrev pub swc2 : ℕ
swc2 = 58

abbrev pub sdc1 : ℕ
sdc1 = 61

abbrev pub sdc2 : ℕ
sdc2 = 62
