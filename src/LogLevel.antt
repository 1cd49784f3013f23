-- ===== src/LogLevel.antt =====
-- include/log_level.hpp: the severity levels, their names, and how they are printed.
pub mod Names
use Prim.Native.String.{String}
use swordfishd.Base.{ℕ, ◌++◌, Bool, ◌||◌, ◌∷◌, [], if◌then◌else◌, Bytes, codes, str_eq}

pub data LogLevel : Type 0 where
  emerg alert crit error warn notice info debug : LogLevel

-- The value of the enumerator.
unfoldable pub number : LogLevel → ℕ
number emerg = 0
number alert = 1
number crit = 2
number error = 3
number warn = 4
number notice = 5
number info = 6
number debug = 7

-- The test of `__CAST_NAME_TO_LEVEL`.
abbrev pub is_named : Bytes → String → String → Bool
is_named text short long = str_eq text (codes short) || str_eq text (codes long)

-- `LogLevel::text2level`.
unfoldable pub text2level : Bytes → LogLevel
text2level text =
    if is_named text "EMERG" "EMERGENCY"
    then emerg
    else if is_named text "ALERT" "ALERT"
    then alert
    else if is_named text "CRIT" "CRITICAL"
    then crit
    else if is_named text "ERROR" "ERROR"
    then error
    else if is_named text "WARN" "WARNING"
    then warn
    else if is_named text "NOTICE" "NOTICE"
    then notice
    else if is_named text "INFO" "INFORMATIONAL"
    then info
    else debug

-- The switch of `operator <<`.
unfoldable pub label : LogLevel → Bytes
label emerg = codes "EMERG "
label alert = codes "ALERT "
label crit = codes "CRIT  "
label error = codes "ERROR "
label warn = codes "WARN  "
label notice = codes "NOTICE"
label info = codes "INFO  "
label debug = codes "DEBUG "

-- `operator <<`, given the text of the process id.
unfoldable pub print_level : Bytes → LogLevel → Bytes
unfolding label
print_level pid level = codes "swordfish-" ++ pid ++ b' ' ∷ label level
