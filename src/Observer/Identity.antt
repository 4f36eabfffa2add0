-- ===== src/Observer/Identity.antt =====
-- observer/src/identity.rs: what the file system says of a process and of its camera.
--
-- `x >> k` is `x / 2 ^ k`, and a mask of the bits from `k` on, below `w`, is
-- `x % 2 ^ w / 2 ^ k * 2 ^ k`. The two parts of a device number that an `|` joins have no bit in
-- common, so they are added.
pub mod StartTime
pub mod DeviceNumber
use lensguard.Prelude.{
  ℕ, zero, suc, ◌+◌, ◌*◌, ◌-◌, ◌/◌, ◌%◌, ◌^◌, Bool, true, false, not, ◌&&◌, List, [], ◌∷◌, ◌++◌,
  Option, none, some, ℤ, Text, codes, Result, ok, err, ◌>>=◌, ◌>>◌, ok_or, fail_if, map_err, ltb,
  leb, ◌==◌, if◌then◌else◌, trim, is_empty, take, find_map,
}
use lensguard.Decimal.{show, show_int}
use lensguard.Io.{FileSystem, Metadata, ErrorKind, ok_value}
use lensguard.Paths.{
  FilePath, Component, root_dir, normal, OsString, unicode, other, join, parent, named, path_of,
  last_name,
}
use lensguard.Strings.{rsplit_once, split_whitespace, strip_prefix, starts_with, lines}
use lensguard.Core.Capture.{PhysicalCameraId}
use lensguard.Daemon.Backoff.{u64_max}
use lensguard.Daemon.Wire.{u32_max}

pub data IdentityError : Type 0 where
  missing not_v4l2 : IdentityError

abbrev is_digit : ℕ → Bool
is_digit c = leb 48 c && leb c 57

-- The digits of `str::parse::<u64>`, each with its checks for overflow.
unfoldable pub parse_digits : ℕ → Text → Option ℕ
parse_digits n [] = some n
parse_digits n (c ∷ s) =
    let grown = n * 10 + (c - 48) in
    let rest = parse_digits grown s in if is_digit c && leb grown u64_max then rest else none

-- `str::parse::<u64>`: one plus sign may stand in front.
unfoldable pub parse_u64 : Text → Option ℕ
parse_u64 [] = none
parse_u64 (c ∷ []) = if c == b'+' then none else parse_digits 0 (c ∷ [])
parse_u64 (c ∷ d ∷ s) = if c == b'+' then parse_digits 0 (d ∷ s) else parse_digits 0 (c ∷ d ∷ s)

-- `fields.get(index)`
abbrev pub get_elem? {ℓ} : {A : Type ℓ} → List A → ℕ → Option A
get_elem? [] i = none
get_elem? (x ∷ xs) zero = some x
get_elem? (x ∷ xs) (suc i) = get_elem? xs i

abbrev pub and_parse : Option Text → Option ℕ
and_parse none = none
and_parse (some t) = parse_u64 t

abbrev pub positive : Option ℕ → Option ℕ
positive none = none
positive (some n) = if ltb 0 n then some n else none

-- What `process_start_time_ticks` makes of the text that it reads.
unfoldable pub start_time_of : Text → Result IdentityError ℕ
start_time_of stat = do
  parts ← ok_or (rsplit_once b')' stat) missing
  ok_or (positive (and_parse (get_elem? (split_whitespace parts.1) 19))) missing

-- `/proc/{process_id}`
abbrev pub process_directory : ℕ → FilePath
process_directory process_id = root_dir ∷ (named (codes "proc") ++ named (show process_id))

module _ (fs : FileSystem) where
  -- `process_start_time_ticks`
  unfoldable pub process_start_time_ticks : ℕ → Result IdentityError ℕ
  process_start_time_ticks process_id = do
    stat ←
        map_err (λ _. missing)
          (fs.read_to_string (process_directory process_id ++ named (codes "stat")))
    start_time_of stat

  -- `read_trimmed`
  unfoldable pub read_trimmed : FilePath → Option Text
  read_trimmed path = elim (fs.read_to_string path) [
    | err _ ↦ none
    | ok value ↦ if is_empty (trim value) then none else some (trim value)
  ]

-- `Path::ancestors`, the first few.
unfoldable pub ancestors_from : ℕ → FilePath → List FilePath
ancestors_from zero path = []
ancestors_from (suc fuel) path =
    path ∷ elim (parent path) [ none ↦ [] | some p ↦ ancestors_from fuel p ]

-- `path.ancestors().take(10)`
abbrev pub near_ancestors : FilePath → List FilePath
near_ancestors path = ancestors_from 10 path

abbrev lossy : FileSystem → OsString → Text
lossy fs (unicode name) = name
lossy fs (other bytes) = fs.to_string_lossy bytes

-- The driver that the link of one ancestor names.
abbrev driver_name : FileSystem → Result ErrorKind FilePath → Option Text
driver_name fs (err _) = none
driver_name fs (ok driver) = elim (last_name driver) [ none ↦ none | some n ↦ some (lossy fs n) ]

module _ (fs : FileSystem) where
  -- `find_parent_value`
  unfoldable pub find_parent_value : Option FilePath → Text → Option Text
  find_parent_value none name = none
  find_parent_value (some start) name =
      find_map (λ path. read_trimmed fs (join path (named name))) (near_ancestors start)

  -- `find_driver`
  unfoldable pub find_driver : Option FilePath → Option Text
  find_driver none = none
  find_driver (some start) =
      find_map (λ path. driver_name fs (fs.read_link (join path (named (codes "driver")))))
        (near_ancestors start)

-- `u32::try_from(value).unwrap_or_default()`
abbrev pub u32_or_zero : ℕ → ℕ
u32_or_zero n = if leb n u32_max then n else 0

-- `linux_major`: the bits of 0xfff and of 0xffff_f000.
unfoldable pub linux_major : ℕ → ℕ
linux_major device =
    u32_or_zero (device / 2 ^ 8 % 2 ^ 12 + device / 2 ^ 32 % 2 ^ 32 / 2 ^ 12 * 2 ^ 12)

-- `linux_minor`: the bits of 0xff and of 0xffff_ff00.
unfoldable pub linux_minor : ℕ → ℕ
linux_minor device = u32_or_zero (device % 2 ^ 8 + device / 2 ^ 12 % 2 ^ 32 / 2 ^ 8 * 2 ^ 8)

-- `Path::display` of a component, and of a path.
abbrev show_component : FileSystem → Component → Text
show_component fs Component.root_dir = []
show_component fs Component.cur_dir = codes "."
show_component fs Component.parent_dir = codes ".."
show_component fs (Component.normal name) = lossy fs name

unfoldable pub display : FileSystem → FilePath → Text
display fs [] = []
display fs (Component.root_dir ∷ []) = codes "/"
display fs (c ∷ []) = show_component fs c
display fs (c ∷ d ∷ path) = show_component fs c ++ b'/' ∷ display fs (d ∷ path)

-- `node.to_str()`: none of the names is other than Unicode.
abbrev is_unicode : Component → Bool
is_unicode (Component.normal (other _)) = false
is_unicode _ = true

abbrev all_unicode : FilePath → Bool
all_unicode [] = true
all_unicode (c ∷ path) = is_unicode c && all_unicode path

abbrev to_str : FileSystem → FilePath → Option Text
to_str fs path = if all_unicode path then some (display fs path) else none

-- `Result::or_else`
abbrev or_read {ℓ κ} : {E : Type ℓ} {A : Type κ} → Result E A → Result E A → Result E A
or_read (ok a) b = ok a
or_read (err _) b = b

abbrev map_display : FileSystem → Option FilePath → Option Text
map_display fs none = none
map_display fs (some path) = some (display fs path)

-- `/sys/dev/char/{major}:{minor}`
abbrev pub device_directory : ℕ → ℕ → FilePath
device_directory major minor =
    path_of (codes "/sys/dev/char") ++ named (show major ++ b':' ∷ show minor)

-- `physical_camera`
unfoldable pub physical_camera : FileSystem → ℕ → ℤ → Result IdentityError PhysicalCameraId
physical_camera fs process_id fd = do
  let fd_path = process_directory process_id ++ (named (codes "fd") ++ named (show_int fd))
  node ← map_err (λ _. missing) (fs.read_link fd_path)
  metadata ← map_err (λ _. missing) (fs.metadata fd_path)
  fail_if (not metadata.is_char_device) not_v4l2
  let major = linux_major metadata.rdev
  let minor = linux_minor metadata.rdev
  let sys_char = device_directory major minor
  uevent ←
      map_err (λ _. not_v4l2)
        (or_read (fs.read_to_string (sys_char ++ named (codes "uevent")))
          (fs.read_to_string (sys_char ++ (named (codes "device") ++ named (codes "uevent")))))
  devname ← ok_or (find_map (strip_prefix (codes "DEVNAME=")) (lines uevent)) not_v4l2
  fail_if (not (starts_with (codes "video") devname)) not_v4l2
  let device_path = ok_value (fs.canonicalize (sys_char ++ named (codes "device")))
  let class_path = join (path_of (codes "/sys/class/video4linux")) (path_of devname)
  ok (record {
    major = major;
    minor = minor;
    udev_syspath = map_display fs device_path;
    media_device = none;
    serial = find_parent_value fs device_path (codes "serial");
    hardware_path = map_display fs device_path;
    vendor_id = find_parent_value fs device_path (codes "idVendor");
    product_id = find_parent_value fs device_path (codes "idProduct");
    bus_info = to_str fs node;
    driver = find_driver fs device_path;
    display_name = read_trimmed fs (class_path ++ named (codes "name"));
  })
