-- ===== src/LogLevel/Names.antt =====
-- include/log_level.hpp: which texts name which level.
use swordfishd.Base.{
  ◌≡◌, ◌≢◌, refl, ◌⊎◌, ◌↔◌, inl, inr, true, ◌||◌, [], ◌∷◌, arith, if◌then◌else◌, ◌==◌, Bytes, codes,
  str_eq, str_eq_iff,
}
use swordfishd.LogLevel.{
  LogLevel, emerg, alert, crit, error, warn, notice, info, debug, text2level, label,
}

abbrev pub short_name : LogLevel → Bytes
short_name emerg = codes "EMERG"
short_name alert = codes "ALERT"
short_name crit = codes "CRIT"
short_name error = codes "ERROR"
short_name warn = codes "WARN"
short_name notice = codes "NOTICE"
short_name info = codes "INFO"
short_name debug = codes "DEBUG"

abbrev pub long_name : LogLevel → Bytes
long_name emerg = codes "EMERGENCY"
long_name alert = codes "ALERT"
long_name crit = codes "CRITICAL"
long_name error = codes "ERROR"
long_name warn = codes "WARNING"
long_name notice = codes "NOTICE"
long_name info = codes "INFORMATIONAL"
long_name debug = codes "DEBUG"

abbrev pub Names : LogLevel → Bytes → Type 0
Names l t = (t ≡ short_name l) ⊎ (t ≡ long_name l)

is_named_at :
    (l : LogLevel) (t : Bytes)
    → (str_eq t (short_name l) || str_eq t (long_name l)) ≡ true
    → Names l t
is_named_at l t h = ground (arith, str_eq_iff t (short_name l), str_eq_iff t (long_name l))

text2level-Names : (l : LogLevel) (t : Bytes) → l ≢ debug → text2level t ≡ l → Names l t
unfolding text2level
text2level-Names emerg t ne e = is_named_at emerg t (ground arith)
text2level-Names alert t ne e = is_named_at alert t (ground arith)
text2level-Names crit t ne e = is_named_at crit t (ground arith)
text2level-Names error t ne e = is_named_at error t (ground arith)
text2level-Names warn t ne e = is_named_at warn t (ground arith)
text2level-Names notice t ne e = is_named_at notice t (ground arith)
text2level-Names info t ne e = is_named_at info t (ground arith)
text2level-Names debug t ne e = absurd (ne refl)

text2level-short_name : (l : LogLevel) → text2level (short_name l) ≡ l
unfolding text2level str_eq
text2level-short_name emerg = refl
text2level-short_name alert = refl
text2level-short_name crit = refl
text2level-short_name error = refl
text2level-short_name warn = refl
text2level-short_name notice = refl
text2level-short_name info = refl
text2level-short_name debug = refl

text2level-long_name : (l : LogLevel) → text2level (long_name l) ≡ l
unfolding text2level str_eq
text2level-long_name emerg = refl
text2level-long_name alert = refl
text2level-long_name crit = refl
text2level-long_name error = refl
text2level-long_name warn = refl
text2level-long_name notice = refl
text2level-long_name info = refl
text2level-long_name debug = refl

Names-text2level : (l : LogLevel) (t : Bytes) → Names l t → text2level t ≡ l
Names-text2level l t (inl e) = rw e (text2level-short_name l)
Names-text2level l t (inr e) = rw e (text2level-long_name l)

-- A text is read as a level other than DEBUG exactly when it is the level's short or long name.
pub text2level_iff : (l : LogLevel) (t : Bytes) → l ≢ debug → (text2level t ≡ l) ↔ Names l t
text2level_iff l t ne = (text2level-Names l t ne, Names-text2level l t)

-- Without the blanks at its end.
pub trim_end : Bytes → Bytes
trim_end [] = []
trim_end (c ∷ s) =
    let rest = trim_end s in elim rest [ [] ↦ if c == b' ' then [] else c ∷ [] | d ∷ r ↦ c ∷ d ∷ r ]

-- What `operator <<` prints for a level reads back as that level, once its padding is gone.
pub text2level-label : (l : LogLevel) → text2level (trim_end (label l)) ≡ l
unfolding text2level str_eq label trim_end
text2level-label emerg = refl
text2level-label alert = refl
text2level-label crit = refl
text2level-label error = refl
text2level-label warn = refl
text2level-label notice = refl
text2level-label info = refl
text2level-label debug = refl
