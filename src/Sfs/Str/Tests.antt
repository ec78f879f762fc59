-- ===== src/Sfs/Str/Tests.antt =====
-- A short name and one of exactly the array's length.
use rcore_fs.Base.{◌≤◌, ◌<◌, ◌≡◌, arith, length, refl}
use rcore_fs.Base.Outcome.{ok, panic}
use rcore_fs.Vfs.Path.{is_utf8, utf8_from, utf8_next}
use rcore_fs.Sfs.Str.{default_info}
use rcore_fs.Sfs.Str.RoundTrip.{stored, stored_lem}

stored_lem_example :
    (length default_info < 32 → stored 32 default_info ≡ ok default_info)
    × (32 ≤ length default_info → stored 32 default_info ≡ panic)
unfolding is_utf8 utf8_from utf8_next
stored_lem_example = stored_lem 32 default_info (omega arith) refl
