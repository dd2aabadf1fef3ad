-- ===== src/Helper.antt =====
-- `setup_credential_helper` of runtime/templates/runtime_metadata.py: Git's credential exchange with
-- Amp, which passes through a filter in both directions.
pub mod Exchanged
mod Tests
use clamp.Prelude.{
  ℕ, Bool, true, false, ◌&&◌, Option, none, some, [], ◌∷◌, leb, length, is_empty, if◌then◌else◌,
}
use clamp.Prelude.Results.{Result, key_error, unicode_encode_error}
use clamp.Text.{Text, codes, text_eq, mem, strip}
use clamp.Utf8.{Bytes, encode}
use clamp.Credential.{valid_credential_protocol}
use clamp.Os.{Env, M, History, input, ◌>>=◌, ◌>>◌, return, require, raise}
use clamp.Process.{Processes, Command}
use clamp.Process.Bounded.{bounded_output}

-- `sys.stdin.buffer.read(n)`, and `os.environ.get("HOME")`.
pub record Console : Type 0 where
  pub read_input : History → ℕ → Result Bytes
  pub home : Option Text

-- `operation in ("get", "store", "erase")`
unfoldable pub is_operation : Text → Bool
is_operation operation = mem operation (codes "get" ∷ codes "store" ∷ codes "erase" ∷ [])

-- `sys.stdout.write` is made for these outputs.
unfoldable pub is_answer : Text → Text → Bytes → Bool
is_answer operation output raw =
    if text_eq operation (codes "get")
    then valid_credential_protocol raw true
    else is_empty (strip output)

-- The arguments of `bounded_output`.
unfoldable pub helper_command : Text → Text → Text → Bytes → Command
helper_command executable operation home request = record {
  arguments = executable ∷ codes "git-credential-helper" ∷ operation ∷ [];
  environment =
      (codes "HOME", home)
      ∷ (codes "PATH", codes "/usr/bin:/bin")
      ∷ (codes "GIT_CONFIG_NOSYSTEM", codes "1")
      ∷ (codes "GIT_CONFIG_GLOBAL", codes "/dev/null")
      ∷ (codes "GIT_TERMINAL_PROMPT", codes "0")
      ∷ [];
  executable = some executable;
  input_data = some request;
  new_session = false;
  maximum = 65536;
  timeout = 5000000000;
}

-- `os.environ["HOME"]`
unfoldable pub home_of : Option Text → M Text
home_of none = raise key_error
home_of (some home) = return home

-- `output.encode()`
unfoldable pub encoded : Option Bytes → M Bytes
encoded none = raise unicode_encode_error
encoded (some raw) = return raw

abbrev pub do_read_input : Console → ℕ → M Bytes
do_read_input console n h = (console.read_input h n, input n ∷ h)

-- `setup_credential_helper`, with the text that it writes; the fuel is that of `bounded_output`.
unfoldable pub setup_credential_helper : Env → Processes → Console → ℕ → Text → Text → M Text
setup_credential_helper env processes console fuel executable operation = do
  require (is_operation operation) "credential protocol invalid"
  request ← do_read_input console 65537
  require (leb (length request) 65536 && valid_credential_protocol request false)
      "credential protocol invalid"
  home ← home_of console.home
  output ← bounded_output env processes fuel (helper_command executable operation home request)
  raw ← encoded (encode output)
  require (is_answer operation output raw) "credential protocol invalid"
  return output
