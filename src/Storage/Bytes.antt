-- ===== src/Storage/Bytes.antt =====
-- `_format_bytes` of services/storage/plan.py. The float arithmetic is exact below 2 ^ 53 bytes:
-- the divisions are by powers of two, and `:.1f` rounds to the even tenth at a tie.
use nas_os.Common.{ℕ, ◌+◌, ◌*◌, ◌/◌, ◌%◌, String, ◌<>◌, List, [], ◌∷◌, ltb, ◌||◌}
use nas_os.Common.{◌==◌, string_eq, nat_eq, if◌then◌else◌}
use nas_os.Common.Text.{str}

-- The tenths of `size / scale`, rounded half to even.
tenths : ℕ → ℕ → ℕ
unfolding nat_eq
tenths size scale =
    let whole = size * 10 / scale in
    let rest = 2 * (size * 10 % scale) in
    if ltb rest scale then whole else if ltb scale rest then whole + 1 else whole + whole % 2

show_value : ℕ → ℕ → String → String
unfolding tenths str
show_value size scale unit =
    let t = tenths size scale in str (t / 10) <> ("." <> (str (t % 10) <> (" " <> unit)))

-- The loop over the units after "B".
scaled : ℕ → ℕ → List String → String
unfolding show_value string_eq
scaled size scale [] = show_value size scale "PiB"
scaled size scale (unit ∷ units) =
    let rest = scaled size (scale * 1024) units in
    if ltb size (scale * 1024) || unit == "PiB" then show_value size scale unit else rest

unfoldable pub format_bytes : ℕ → String
unfolding scaled
format_bytes size =
    if ltb size 1024
    then str size <> " B"
    else scaled size 1024 ("KiB" ∷ "MiB" ∷ "GiB" ∷ "TiB" ∷ "PiB" ∷ [])
