-- ===== src/Cache.antt =====
-- `cache` of runtime/templates/runtime_metadata.py: a verified manifest is put in place for later.
pub mod Published
mod Tests
use clamp.Prelude.{◌++◌, if◌then◌else◌}
use clamp.Text.{Text, codes}
use clamp.Utf8.{Bytes}
use clamp.Posix.{dirname, join_name}
use clamp.Paths.{max_manifest}
use clamp.Os.{
  Env, M, ◌>>=◌, ◌>>◌, finally, link, unlink, fsync, act, do_create, do_write, do_close, do_lexists,
  do_token,
}
use clamp.Files.{read_regular, sync_directory}
use clamp.Repository.{verify_digest}

module _ (env : Env) where
  -- The copy of the source in the new file; what `os.write` returns is dropped.
  unfoldable pub fill : Text → Text → M (Unit {0})
  fill source temporary = do
    fd ← do_create env temporary 0x180
    finally
        (do raw ← read_regular env source max_manifest; _ ← do_write env fd raw; act env (fsync fd))
        (do_close env fd)

  unfoldable pub publish : Text → Text → M (Unit {0})
  publish temporary destination =
      finally (act env (link temporary destination) >> sync_directory env (dirname destination))
        (act env (unlink temporary))

  -- `sha256` is the hexadecimal digest of `hashlib`.
  unfoldable pub cache : (Bytes → Text) → Text → Text → Text → M (Unit {0})
  cache sha256 source destination expected = do
    verify_digest env sha256 source expected
    there ← do_lexists env destination
    if there then verify_digest env sha256 destination expected else do
      token ← do_token env
      let temporary = join_name (dirname destination) (codes ".manifest-" ++ token)
      fill source temporary
      publish temporary destination
