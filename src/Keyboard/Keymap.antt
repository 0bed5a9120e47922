-- ===== src/Keyboard/Keymap.antt =====
-- The scan codes and the table of characters of device/keyboard.c.
use os_learning.Base.{ℕ, List, [], ◌∷◌}

abbrev pub esc : ℕ
esc = 27

abbrev pub enter : ℕ
enter = 13

abbrev pub tab : ℕ
tab = 9

abbrev pub backspace : ℕ
backspace = 8

abbrev pub char_invisible : ℕ
char_invisible = 0

abbrev pub shift_l_make : ℕ
shift_l_make = 0x2a

abbrev pub shift_r_make : ℕ
shift_r_make = 0x36

abbrev pub alt_l_make : ℕ
alt_l_make = 0x38

abbrev pub alt_r_make : ℕ
alt_r_make = 0xe038

abbrev pub ctrl_l_make : ℕ
ctrl_l_make = 0x1d

abbrev pub ctrl_r_make : ℕ
ctrl_r_make = 0xe01d

abbrev pub caps_lock_make : ℕ
caps_lock_make = 0x3a

-- `keymap`, by scan code: without and with shift. 34, 39 and 92 are the quotes and the backslash.
abbrev pub keymap : List (ℕ × ℕ)
keymap =
    (0, 0)
    ∷ (esc, esc)
    ∷ (b'1', b'!')
    ∷ (b'2', b'@')
    ∷ (b'3', b'#')
    ∷ (b'4', b'$')
    ∷ (b'5', b'%')
    ∷ (b'6', b'^')
    ∷ (b'7', b'&')
    ∷ (b'8', b'*')
    ∷ (b'9', b'(')
    ∷ (b'0', b')')
    ∷ (b'-', b'_')
    ∷ (b'=', b'+')
    ∷ (backspace, backspace)
    ∷ (tab, tab)
    ∷ (b'q', b'Q')
    ∷ (b'w', b'W')
    ∷ (b'e', b'E')
    ∷ (b'r', b'R')
    ∷ (b't', b'T')
    ∷ (b'y', b'Y')
    ∷ (b'u', b'U')
    ∷ (b'i', b'I')
    ∷ (b'o', b'O')
    ∷ (b'p', b'P')
    ∷ (b'[', b'{')
    ∷ (b']', b'}')
    ∷ (enter, enter)
    ∷ (char_invisible, char_invisible)
    ∷ (b'a', b'A')
    ∷ (b's', b'S')
    ∷ (b'd', b'D')
    ∷ (b'f', b'F')
    ∷ (b'g', b'G')
    ∷ (b'h', b'H')
    ∷ (b'j', b'J')
    ∷ (b'k', b'K')
    ∷ (b'l', b'L')
    ∷ (b';', b':')
    ∷ (39, 34)
    ∷ (b'`', b'~')
    ∷ (char_invisible, char_invisible)
    ∷ (92, b'|')
    ∷ (b'z', b'Z')
    ∷ (b'x', b'X')
    ∷ (b'c', b'C')
    ∷ (b'v', b'V')
    ∷ (b'b', b'B')
    ∷ (b'n', b'N')
    ∷ (b'm', b'M')
    ∷ (b',', b'<')
    ∷ (b'.', b'>')
    ∷ (b'/', b'?')
    ∷ (char_invisible, char_invisible)
    ∷ (b'*', b'*')
    ∷ (char_invisible, char_invisible)
    ∷ (b' ', b' ')
    ∷ (char_invisible, char_invisible)
    ∷ []
