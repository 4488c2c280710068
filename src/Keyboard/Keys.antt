-- ===== src/Keyboard/Keys.antt =====
-- kernel/interrupts/keyboard.c: the key codes, and the two tables of characters by scan code.
use mmd_os.Base.{ℕ, ◌-◌, List, ◌∷◌, replicate}

abbrev pub unknown : ℕ
unknown = 0xFFFFFFFF

abbrev pub esc : ℕ
esc = 0xFFFFFFFF - 1

abbrev pub ctrl : ℕ
ctrl = 0xFFFFFFFF - 2

abbrev pub lshft : ℕ
lshft = 0xFFFFFFFF - 3

abbrev pub rshft : ℕ
rshft = 0xFFFFFFFF - 4

abbrev pub alt : ℕ
alt = 0xFFFFFFFF - 5

abbrev pub f1 : ℕ
f1 = 0xFFFFFFFF - 6

abbrev pub f2 : ℕ
f2 = 0xFFFFFFFF - 7

abbrev pub f3 : ℕ
f3 = 0xFFFFFFFF - 8

abbrev pub f4 : ℕ
f4 = 0xFFFFFFFF - 9

abbrev pub f5 : ℕ
f5 = 0xFFFFFFFF - 10

abbrev pub f6 : ℕ
f6 = 0xFFFFFFFF - 11

abbrev pub f7 : ℕ
f7 = 0xFFFFFFFF - 12

abbrev pub f8 : ℕ
f8 = 0xFFFFFFFF - 13

abbrev pub f9 : ℕ
f9 = 0xFFFFFFFF - 14

abbrev pub f10 : ℕ
f10 = 0xFFFFFFFF - 15

abbrev pub f11 : ℕ
f11 = 0xFFFFFFFF - 16

abbrev pub f12 : ℕ
f12 = 0xFFFFFFFF - 17

abbrev pub scrlck : ℕ
scrlck = 0xFFFFFFFF - 18

abbrev pub home : ℕ
home = 0xFFFFFFFF - 19

abbrev pub up : ℕ
up = 0xFFFFFFFF - 20

abbrev pub left : ℕ
left = 0xFFFFFFFF - 21

abbrev pub right : ℕ
right = 0xFFFFFFFF - 22

abbrev pub down : ℕ
down = 0xFFFFFFFF - 23

abbrev pub pgup : ℕ
pgup = 0xFFFFFFFF - 24

abbrev pub pgdown : ℕ
pgdown = 0xFFFFFFFF - 25

abbrev pub end : ℕ
end = 0xFFFFFFFF - 26

abbrev pub ins : ℕ
ins = 0xFFFFFFFF - 27

abbrev pub del : ℕ
del = 0xFFFFFFFF - 28

abbrev pub caps : ℕ
caps = 0xFFFFFFFF - 29

abbrev pub numlck : ℕ
numlck = 0xFFFFFFFF - 32

unfoldable pub lower_case : List ℕ
lower_case =
    unknown
    ∷ esc
    ∷ 49
    ∷ 50
    ∷ 51
    ∷ 52
    ∷ 53
    ∷ 54
    ∷ 55
    ∷ 56
    ∷ 57
    ∷ 48
    ∷ 45
    ∷ 61
    ∷ 8
    ∷ 9
    ∷ 113
    ∷ 119
    ∷ 101
    ∷ 114
    ∷ 116
    ∷ 121
    ∷ 117
    ∷ 105
    ∷ 111
    ∷ 112
    ∷ 91
    ∷ 93
    ∷ 10
    ∷ ctrl
    ∷ 97
    ∷ 115
    ∷ 100
    ∷ 102
    ∷ 103
    ∷ 104
    ∷ 106
    ∷ 107
    ∷ 108
    ∷ 59
    ∷ 39
    ∷ 96
    ∷ lshft
    ∷ 92
    ∷ 122
    ∷ 120
    ∷ 99
    ∷ 118
    ∷ 98
    ∷ 110
    ∷ 109
    ∷ 44
    ∷ 46
    ∷ 47
    ∷ rshft
    ∷ 42
    ∷ alt
    ∷ 32
    ∷ caps
    ∷ f1
    ∷ f2
    ∷ f3
    ∷ f4
    ∷ f5
    ∷ f6
    ∷ f7
    ∷ f8
    ∷ f9
    ∷ f10
    ∷ numlck
    ∷ scrlck
    ∷ home
    ∷ up
    ∷ pgup
    ∷ 45
    ∷ left
    ∷ unknown
    ∷ right
    ∷ 43
    ∷ end
    ∷ down
    ∷ pgdown
    ∷ ins
    ∷ del
    ∷ unknown
    ∷ unknown
    ∷ unknown
    ∷ f11
    ∷ f12
    ∷ replicate 39 unknown

unfoldable pub upper_case : List ℕ
upper_case =
    unknown
    ∷ esc
    ∷ 33
    ∷ 64
    ∷ 35
    ∷ 36
    ∷ 37
    ∷ 94
    ∷ 38
    ∷ 42
    ∷ 40
    ∷ 41
    ∷ 95
    ∷ 43
    ∷ 8
    ∷ 9
    ∷ 81
    ∷ 87
    ∷ 69
    ∷ 82
    ∷ 84
    ∷ 89
    ∷ 85
    ∷ 73
    ∷ 79
    ∷ 80
    ∷ 123
    ∷ 125
    ∷ 10
    ∷ ctrl
    ∷ 65
    ∷ 83
    ∷ 68
    ∷ 70
    ∷ 71
    ∷ 72
    ∷ 74
    ∷ 75
    ∷ 76
    ∷ 58
    ∷ 34
    ∷ 126
    ∷ lshft
    ∷ 124
    ∷ 90
    ∷ 88
    ∷ 67
    ∷ 86
    ∷ 66
    ∷ 78
    ∷ 77
    ∷ 60
    ∷ 62
    ∷ 63
    ∷ rshft
    ∷ 42
    ∷ alt
    ∷ 32
    ∷ caps
    ∷ f1
    ∷ f2
    ∷ f3
    ∷ f4
    ∷ f5
    ∷ f6
    ∷ f7
    ∷ f8
    ∷ f9
    ∷ f10
    ∷ numlck
    ∷ scrlck
    ∷ home
    ∷ up
    ∷ pgup
    ∷ 45
    ∷ left
    ∷ unknown
    ∷ right
    ∷ 43
    ∷ end
    ∷ down
    ∷ pgdown
    ∷ ins
    ∷ del
    ∷ unknown
    ∷ unknown
    ∷ unknown
    ∷ f11
    ∷ f12
    ∷ replicate 39 unknown
