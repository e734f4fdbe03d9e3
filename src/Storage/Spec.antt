-- ===== src/Storage/Spec.antt =====
-- `StoragePlanSpec` of rpc/schemas.py with the patterns that its fields must match.
use Prim.Native.Char.{code}
use nas_os.Common.{ℕ, String, Bool, true, false, List, [], ◌∷◌, ◌&&◌, ◌||◌, ltb, leb, length}
use nas_os.Common.{◌==◌, contains, string_eq, nat_eq}

pub record StoragePlanSpec : Type 0 where
  pub volume_name : String
  pub level : String
  pub filesystem : String
  pub disk_paths : List String
  pub disk_serials : List String
  pub array_name : String
  pub vg_name : String
  pub lv_name : String
  pub mountpoint : String

abbrev codes : String → List ℕ
codes String.[] = []
codes (String.◌∷◌ c s) = code c ∷ codes s

is_alnum : ℕ → Bool
is_alnum c = leb b'0' c && leb c b'9' || leb b'A' c && leb c b'Z' || leb b'a' c && leb c b'z'

every : (ℕ → Bool) → List ℕ → Bool
every p [] = true
every p (c ∷ cs) = p c && every p cs

volume_name_codes : List ℕ → Bool
unfolding every is_alnum nat_eq
volume_name_codes [] = false
volume_name_codes (c ∷ cs) =
    is_alnum c && every (λ d. is_alnum d || d == b'_' || d == b'-') cs && leb (length cs) 63

-- `VOLUME_NAME_RE`
unfoldable pub is_volume_name : String → Bool
unfolding volume_name_codes
is_volume_name s = volume_name_codes (codes s)

-- `DEVICE_NAME_RE`
unfoldable pub is_device_name : String → Bool
unfolding every is_alnum nat_eq
is_device_name s =
    let cs = codes s in
    every (λ d. is_alnum d || d == b'_' || d == b'.' || d == b':' || d == b'-') cs
    && (ltb 0 (length cs) && leb (length cs) 64)

abbrev pub raid_levels : List String
raid_levels = "basic" ∷ "1" ∷ "5" ∷ "6" ∷ "10" ∷ []

abbrev pub filesystems : List String
filesystems = "xfs" ∷ "ext4" ∷ []

-- What pydantic checks when a `StoragePlanSpec` is built; `max_length` counts characters.
unfoldable pub validates : StoragePlanSpec → Bool
unfolding is_volume_name is_device_name
validates spec =
    is_volume_name spec.volume_name
    && contains raid_levels spec.level
    && contains filesystems spec.filesystem
    && ltb 0 (length spec.disk_paths)
    && ltb 0 (length spec.disk_serials)
    && is_device_name spec.array_name
    && is_device_name spec.vg_name
    && is_device_name spec.lv_name
    && ltb 0 (length (codes spec.mountpoint))
    && leb (length (codes spec.mountpoint)) 255
