-- ===== src/Ramfs/File.antt =====
-- The methods of rcore-fs-ramfs/src/lib.rs that work on one inode: content and metadata.
-- A sum of an offset and a length is taken to stay below 2 ^ 64.
use rcore_fs.Base.{
  ℕ, ◌+◌, ◌-◌, true, false, List, ◌++◌, ltb, min, if◌then◌else◌, length, take, drop, replicate,
}
use rcore_fs.Base.Slices.{copy_into}
use rcore_fs.Base.Outcome.{ok, panic, pure, fail}
use rcore_fs.Vfs.{FsError, Metadata, PollStatus, FsInfo, is_dir_type, is_file_type}
use rcore_fs.Ramfs.State.{RamAction, with_node, put_node}

-- `Vec::resize(n, 0)`.
abbrev pub resize_vec : List ℕ → ℕ → List ℕ
resize_vec xs n = take n xs ++ replicate (n - length xs) 0

-- The bytes that `read_at` puts into a buffer of length `n`; their number is what it returns.
unfoldable pub read_at : ℕ → (offset n : ℕ) → RamAction (List ℕ)
read_at a offset n = with_node a λ file.
    let start = min (length file.content) offset in
    let end = min (length file.content) (offset + n) in
    if is_dir_type file.extra.type_
    then fail FsError.is_dir
    else pure (take (end - start) (drop start file.content))

-- The content behind `write_at`.
abbrev pub written : List ℕ → ℕ → List ℕ → List ℕ
written content offset buf =
    copy_into
      (if ltb (length content) (offset + length buf)
        then resize_vec content (offset + length buf)
        else content)
      offset buf

unfoldable pub write_at : ℕ → ℕ → List ℕ → RamAction ℕ
write_at a offset buf = with_node a λ file.
    if is_dir_type file.extra.type_ then fail FsError.is_dir else (λ s.
      (put_node s a (record file { content = written file.content offset buf }), ok (length buf)))

unfoldable pub poll : ℕ → RamAction PollStatus
poll a = with_node a λ file.
    if is_dir_type file.extra.type_
    then fail FsError.is_dir
    else pure (record { read = true; write = true; error = false })

unfoldable pub metadata : ℕ → RamAction Metadata
metadata a = with_node a λ file. pure (record (file.extra) { size = length file.content })

-- `extra` behind `set_metadata`.
abbrev pub merged : Metadata → Metadata → Metadata
merged extra m = record extra {
  atime = m.atime;
  mtime = m.mtime;
  ctime = m.ctime;
  mode = m.mode;
  uid = m.uid;
  gid = m.gid;
}

unfoldable pub set_metadata : ℕ → Metadata → RamAction (Unit {0})
set_metadata a m =
    with_node a λ file s. (put_node s a (record file { extra = merged file.extra m }), ok tt)

unfoldable pub resize : ℕ → ℕ → RamAction (Unit {0})
resize a len = with_node a λ file.
    if is_file_type file.extra.type_
    then (λ s. (put_node s a (record file { content = resize_vec file.content len }), ok tt))
    else fail FsError.not_file

-- `fs` upgrades and unwraps the reference to the file system.
unfoldable pub fs : ℕ → RamAction (Unit {0})
fs a = with_node a λ file s. if file.fs then (s, ok tt) else (s, panic)

unfoldable pub info : FsInfo
info = record {
  bsize = 0;
  frsize = 0;
  blocks = 0;
  bfree = 0;
  bavail = 0;
  files = 0;
  ffree = 0;
  namemax = 0;
}
