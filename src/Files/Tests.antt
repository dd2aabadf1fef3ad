-- ===== src/Files/Tests.antt =====
-- Reads of one file in a system that answers the same each time, and the theorems there.
use clamp.Prelude.{
  zero, suc, ℕ, ◌≡◌, ◌≢◌, refl, true, false, [], ◌∷◌, take, length, arith, subst, ◌≤◌, sym,
}
use clamp.Prelude.Results.{Result, ok, err, exit, out_of_rounds, err-ne-ok, ok_inj}
use clamp.Text.{Text, codes}
use clamp.Os.{Stat, Env, IsBounded}
use clamp.Files.{
  amp_digest_descriptor, read_regular, read_opened, read_exactly, same_file, same_state,
}
use clamp.Files.Digest.{IsDigestOf, amp_digest_descriptor_sound}
use clamp.Os.Keeps.{Keeps}
use clamp.Files.Closed.{read_regular-Keeps}
use clamp.Files.Complete.{IsWhole, read_regular-IsWhole, read_exactly-total}

-- A regular file of three bytes.
abbrev pub three : Stat
three = record {
  is_regular = true;
  is_directory = false;
  mode = 0x1A4;
  dev = 1;
  ino = 2;
  uid = 1000;
  size = 3;
  mtime_ns = 7;
}

abbrev pub quiet : Env
quiet = record {
  lstat = λ h path. ok three;
  open_read = λ h path. ok 5;
  fstat = λ h fd. ok three;
  read = λ h fd n. ok (take n (codes "abc"));
  rewind = λ h fd. ok tt;
  close = λ h fd. ok tt;
  create = λ h path mode. ok 6;
  write = λ h fd bytes. ok (length bytes);
  act = λ h op. ok tt;
  lexists = λ h path. false;
  token = λ h. codes "0";
  real_path = λ h path. path;
  working_directory = codes "/";
  euid = 1000;
}

pub take-length : (n : ℕ) (s : Text) → length (take n s) ≤ n
take-length zero s = omega arith
take-length (suc n) [] = omega arith
take-length (suc n) (c ∷ s) = omega (arith, take-length n s)

quiet-IsBounded : IsBounded quiet
quiet-IsBounded = record {
  at_most =
      λ h fd n chunk e. subst (λ c. length c ≤ n) (sym (ok_inj e)) (take-length n (codes "abc"));
  honest = λ h fd n e. err-ne-ok _ _ (sym e);
}

reads_three : (read_regular quiet (codes "f") 10 []).0 ≡ ok (codes "abc")
unfolding read_regular read_opened read_exactly same_file same_state
reads_three = refl

too_large : (read_regular quiet (codes "f") 2 []).0 ≡ err (exit "unsafe metadata file")
unfolding read_regular
too_large = refl

read_regular-IsWhole_example :
    (before : Stat) × (Result.ok three ≡ ok before)
    × IsWhole quiet quiet-IsBounded before 10 (codes "abc")
read_regular-IsWhole_example =
    read_regular-IsWhole quiet quiet-IsBounded (codes "f") 10 [] (codes "abc") reads_three

read_regular-Keeps_example : Keeps (read_regular quiet (codes "f") 10)
read_regular-Keeps_example = read_regular-Keeps quiet (codes "f") 10

read_exactly-total_example : (read_exactly quiet "changed" 3 5 3 [] []).0 ≢ err out_of_rounds
read_exactly-total_example =
    read_exactly-total quiet quiet-IsBounded "changed" 3 5 3 [] [] (omega arith)

digested : (amp_digest_descriptor quiet (λ raw. raw) 5 []).0 ≡ ok (three, codes "abc")
unfolding amp_digest_descriptor read_exactly same_state
digested = refl

amp_digest_descriptor_sound_example :
    IsDigestOf quiet quiet-IsBounded (λ raw. raw) 5 [] three (codes "abc")
amp_digest_descriptor_sound_example =
    amp_digest_descriptor_sound quiet quiet-IsBounded (λ raw. raw) 5 [] three (codes "abc") digested
