-- ===== src/Repl/Keys/Names.antt =====
-- The `switch (code)` of `emitKeys` in lib/repl/tty.js.
use zero_archive.Prelude.{[], ◌∷◌, true, false, codes, Bool, Text, List, String}

-- A case: the code, the name, and whether it sets `shift` or `ctrl`.
pub record Case : Type 0 where
  pub code : Text
  pub name : Text
  pub shift : Bool
  pub ctrl : Bool

abbrev plain : String → String → Case
plain code name = record { code = codes code; name = codes name; shift = false; ctrl = false }

abbrev shifted : String → String → Case
shifted code name = record { code = codes code; name = codes name; shift = true; ctrl = false }

abbrev controlled : String → String → Case
controlled code name = record { code = codes code; name = codes name; shift = false; ctrl = true }

unfoldable pub cases : List Case
cases =
    plain "OP" "f1"
    ∷ plain "OQ" "f2"
    ∷ plain "OR" "f3"
    ∷ plain "OS" "f4"
    ∷ plain "[11~" "f1"
    ∷ plain "[12~" "f2"
    ∷ plain "[13~" "f3"
    ∷ plain "[14~" "f4"
    ∷ plain "[[A" "f1"
    ∷ plain "[[B" "f2"
    ∷ plain "[[C" "f3"
    ∷ plain "[[D" "f4"
    ∷ plain "[[E" "f5"
    ∷ plain "[15~" "f5"
    ∷ plain "[17~" "f6"
    ∷ plain "[18~" "f7"
    ∷ plain "[19~" "f8"
    ∷ plain "[20~" "f9"
    ∷ plain "[21~" "f10"
    ∷ plain "[23~" "f11"
    ∷ plain "[24~" "f12"
    ∷ plain "[A" "up"
    ∷ plain "[B" "down"
    ∷ plain "[C" "right"
    ∷ plain "[D" "left"
    ∷ plain "[E" "clear"
    ∷ plain "[F" "end"
    ∷ plain "[H" "home"
    ∷ plain "OA" "up"
    ∷ plain "OB" "down"
    ∷ plain "OC" "right"
    ∷ plain "OD" "left"
    ∷ plain "OE" "clear"
    ∷ plain "OF" "end"
    ∷ plain "OH" "home"
    ∷ plain "[1~" "home"
    ∷ plain "[2~" "insert"
    ∷ plain "[3~" "delete"
    ∷ plain "[4~" "end"
    ∷ plain "[5~" "pageup"
    ∷ plain "[6~" "pagedown"
    ∷ plain "[[5~" "pageup"
    ∷ plain "[[6~" "pagedown"
    ∷ plain "[7~" "home"
    ∷ plain "[8~" "end"
    ∷ shifted "[a" "up"
    ∷ shifted "[b" "down"
    ∷ shifted "[c" "right"
    ∷ shifted "[d" "left"
    ∷ shifted "[e" "clear"
    ∷ shifted "[2$" "insert"
    ∷ shifted "[3$" "delete"
    ∷ shifted "[5$" "pageup"
    ∷ shifted "[6$" "pagedown"
    ∷ shifted "[7$" "home"
    ∷ shifted "[8$" "end"
    ∷ controlled "Oa" "up"
    ∷ controlled "Ob" "down"
    ∷ controlled "Oc" "right"
    ∷ controlled "Od" "left"
    ∷ controlled "Oe" "clear"
    ∷ controlled "[2^" "insert"
    ∷ controlled "[3^" "delete"
    ∷ controlled "[5^" "pageup"
    ∷ controlled "[6^" "pagedown"
    ∷ controlled "[7^" "home"
    ∷ controlled "[8^" "end"
    ∷ shifted "[Z" "tab"
    ∷ []
