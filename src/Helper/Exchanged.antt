-- ===== src/Helper/Exchanged.antt =====
-- What passes the filter of `setup_credential_helper` of runtime/templates/runtime_metadata.py.
use clamp.Prelude.{◌∷◌, ◌≡◌, ◌≢◌, ◌≤◌, ℕ, true, false, some, [], length}
use clamp.Prelude.Results.{ok}
use clamp.Text.{Text, codes, strip}
use clamp.Utf8.{Bytes, encode}
use clamp.Credential.{valid_credential_protocol}
use clamp.Os.{Env, Call, History}
use clamp.Process.{Processes, Command}
use clamp.Process.Bounded.{bounded_output}
use clamp.Process.Output.{IsOutput}
use clamp.Helper.{Console, is_operation}

module _ (env : Env) (processes : Processes) (console : Console) where
  -- A request that was read and is well formed, and the output of the helper that was started behind
  -- the read, which is passed on.
  pub record IsExchanged (fuel : ℕ) (executable operation : Text) (h : History) (text : Text)
      : Type 0 where
    pub known : is_operation operation ≡ true
    pub request : Bytes
    pub was_read : console.read_input h 65537 ≡ ok request
    pub short : length request ≤ 65536
    pub valid : valid_credential_protocol request false ≡ true
    pub home : Text
    pub at_home : console.home ≡ some home
    pub command : Command
    pub started : command.executable ≡ some executable
    pub arguments : command.arguments ≡ executable ∷ codes "git-credential-helper" ∷ operation ∷ []
    pub given : command.input_data ≡ some request
    pub at_most : command.maximum ≡ 65536
    pub output :
        IsOutput env processes command
          (Call.input 65537 ∷ h)
          (bounded_output env processes fuel command (Call.input 65537 ∷ h)).1
          text
    pub raw : Bytes
    pub encodes : encode text ≡ some raw
    pub answer : operation ≡ codes "get" → valid_credential_protocol raw true ≡ true
    pub silence : operation ≢ codes "get" → strip text ≡ []
