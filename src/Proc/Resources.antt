-- ===== src/Proc/Resources.antt =====
-- Open files of a process, pkg/kernel/src/utils/resource.rs, and the queue of typed keys of
-- pkg/kernel/src/drivers/input.rs. `none` is a panic of the kernel, an `isize` is its 64 bits, and
-- `Console` output is not kept. The file handles are those of the storage package: their type and
-- their `read`, which answers the handle and, unless it fails, the bytes read, are parameters.
pub mod Descriptors
use operating_system_experim.Prelude.{
  ℕ, ◌-◌, ◌%◌, ◌^◌, Bool, true, false, Option, none, some, List, [], ◌∷◌, ◌++◌, drop, length,
  if◌then◌else◌, ltb, Map, lookup, insert, erase,
}

pub data StdIo : Type 0 where
  stdin stdout stderr : StdIo

pub data Resource (File : Type 0) : Type 0 where
  console : StdIo → Resource File
  file : File → Resource File
  null : Resource File

-- `ArrayQueue` holds 128 keys; a push on the full queue drops the new key.
abbrev pub input_cap : ℕ
input_cap = 128

unfoldable pub push_key : ℕ → List ℕ → List ℕ
push_key key keys = if ltb (length keys) input_cap then keys ++ key ∷ [] else keys

unfoldable pub try_pop_key : List ℕ → Option ℕ × List ℕ
try_pop_key [] = (none, [])
try_pop_key (key ∷ keys) = (some key, keys)

abbrev pub minus_one : ℕ
minus_one = 2 ^ 64 - 1

-- `Some(count) => count as isize, None => -1`
abbrev pub as_isize : Option ℕ → ℕ
as_isize none = minus_one
as_isize (some n) = n

-- What an operation on a buffer leaves: the count or the failure, the buffer, the keys still typed
-- ahead and the resource.
pub record Reply (File : Type 0) : Type 0 where
  pub count : Option ℕ
  pub buf : List ℕ
  pub keys : List ℕ
  pub resource : Resource File

-- The bytes stand at the start of the buffer, the rest is as it was.
abbrev pub fill : List ℕ → List ℕ → List ℕ
fill bytes buf = bytes ++ drop (length bytes) buf

module _ {File : Type 0} (read_file : File → ℕ → File × Option (List ℕ)) where
  -- `buf[0] = ch` on an empty buffer panics.
  read_key : List ℕ → List ℕ → Option (Reply File)
  unfolding try_pop_key
  read_key [] buf = some (record { count = some 0; buf = buf; keys = []; resource = console stdin })
  read_key (ch ∷ keys) [] = none
  read_key (ch ∷ keys) (b ∷ buf) =
      some (record { count = some 1; buf = ch ∷ buf; keys = keys; resource = console stdin })

  read_handle : File × Option (List ℕ) → List ℕ → List ℕ → Reply File
  read_handle (f, none) keys buf = record {
    count = none;
    buf = buf;
    keys = keys;
    resource = file f;
  }
  read_handle (f, some bytes) keys buf = record {
    count = some (length bytes);
    buf = fill bytes buf;
    keys = keys;
    resource = file f;
  }

  unfoldable pub resource_read : Resource File → List ℕ → List ℕ → Option (Reply File)
  unfolding read_key read_handle
  resource_read (console stdin) keys buf = read_key keys buf
  resource_read (console stdout) keys buf =
      some (record { count = none; buf = buf; keys = keys; resource = console stdout })
  resource_read (console stderr) keys buf =
      some (record { count = none; buf = buf; keys = keys; resource = console stderr })
  resource_read (file f) keys buf = some (read_handle (read_file f (length buf)) keys buf)
  resource_read null keys buf =
      some (record { count = some 0; buf = buf; keys = keys; resource = null })

-- Writing keeps nothing: the answer is the whole length, or a failure.
module _ {File : Type 0} where
  unfoldable pub resource_write : Resource File → List ℕ → Option ℕ
  resource_write (console stdin) buf = none
  resource_write (console stdout) buf = some (length buf)
  resource_write (console stderr) buf = some (length buf)
  resource_write (file f) buf = none
  resource_write null buf = some (length buf)

pub record ResourceSet (File : Type 0) : Type 0 where
  pub handles : Map (Resource File)
  pub recycled : List ℕ

-- `recycled` is a stack: its head here is the end of the `Vec`. A new descriptor is the number of
-- handles, cast to `u8`.
module _ {File : Type 0} where
  unfoldable pub open_handle : ResourceSet File → Resource File → ResourceSet File × ℕ
  open_handle r res = elim r.recycled [
    | [] ↦ let fd = length r.handles % 2 ^ 8 in (record r { handles = insert fd res r.handles }, fd)
    | fd ∷ rest ↦ (record { handles = insert fd res r.handles; recycled = rest }, fd)
  ]

  unfoldable pub close : ResourceSet File → ℕ → ResourceSet File × Bool
  close r fd = elim (lookup fd r.handles) [
    | none ↦ (r, false)
    | some _ ↦ (record { handles = erase fd r.handles; recycled = fd ∷ r.recycled }, true)
  ]

  -- `ResourceSet::default`
  unfoldable pub default : ResourceSet File
  unfolding open_handle
  default =
      let r0 : ResourceSet File = record { handles = []; recycled = [] } in
      let r1 = (open_handle r0 (console stdin)).0 in
      let r2 = (open_handle r1 (console stdout)).0 in (open_handle r2 (console stderr)).0

module _ {File : Type 0} (read_file : File → ℕ → File × Option (List ℕ)) where
  -- The count as an `isize`, with the set, the keys and the buffer that the call leaves.
  unfoldable pub set_read :
      ResourceSet File → ℕ → List ℕ → List ℕ → Option (ResourceSet File × List ℕ × List ℕ × ℕ)
  set_read r fd keys buf = elim (lookup fd r.handles) [
    | none ↦ some (r, keys, buf, minus_one)
    | some h ↦ elim (resource_read read_file h keys buf) [
      | none ↦ none
      | some reply ↦ some (
        record r { handles = insert fd reply.resource r.handles },
        reply.keys,
        reply.buf,
        as_isize reply.count,
      )
    ]
  ]

module _ {File : Type 0} where
  unfoldable pub set_write : ResourceSet File → ℕ → List ℕ → ℕ
  set_write r fd buf = elim (lookup fd r.handles) [
    | none ↦ minus_one
    | some h ↦ as_isize (resource_write h buf)
  ]
