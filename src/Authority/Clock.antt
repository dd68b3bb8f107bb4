-- ===== src/Authority/Clock.antt =====
-- `AuthorityResolver._parse_utc` of hyops/authority/resolver.py. `datetime.fromisoformat` is a
-- parameter of the model: the time it reads, in microseconds since 0001-01-01 on the clock of the
-- text, and the offset of that clock, if the text has one.
use Prim.Native.Char.{code}
use Prim.Native.String.{◌++◌}
use hybridops_core.Prelude.{
  ℕ, ◌+◌, ◌-◌, ◌*◌, String, Option, none, some, ltb, leb, nat_eq, if◌then◌else◌,
}
use hybridops_core.Text.{is_empty, strip}
use hybridops_core.Raises.{Raises, ok, value_error, other_error}
use hybridops_core.Value.{ℤ, pos, negsuc}

pub record DateTime : Type 0 where
  pub local : ℕ
  pub offset : Option ℤ

-- 3652059 days, the first instant after the year 9999.
abbrev max_instant : ℕ
max_instant = 3652059 * 86400000000

-- `parsed.astimezone(timezone.utc)`: the instant, or `OverflowError` outside the years 1 to 9999.
unfoldable pub as_utc : ℕ → ℤ → Raises ℕ
as_utc local (pos ahead) =
    if ltb local ahead then other_error "date value out of range" else ok (local - ahead)
as_utc local (negsuc behind) =
    if leb max_instant (local + behind + 1)
    then other_error "date value out of range"
    else ok (local + behind + 1)

-- `text.replace("Z", "+00:00")`
replace_z : String → String
replace_z String.[] = ""
replace_z (String.◌∷◌ c s) =
    if nat_eq (code c) b'Z' then "+00:00" ++ replace_z s else String.◌∷◌ c (replace_z s)

unfoldable pub parse_utc : (String → Option DateTime) → String → String → Raises ℕ
unfolding strip replace_z as_utc
parse_utc fromisoformat value field =
    let text = strip value in
    if is_empty text
    then value_error (field ++ " is required")
    else elim (fromisoformat (replace_z text)) [
      | none ↦ value_error (field ++ " must be an ISO-8601 timestamp")
      | some parsed ↦ elim parsed.offset [
        | none ↦ value_error (field ++ " must include a UTC offset")
        | some offset ↦ as_utc parsed.local offset
      ]
    ]
