-- ===== src/Preflight/Tests.antt =====
-- A machine that passes the preflight.
use clamp.Prelude.{◌≡◌, refl, true, [], ◌∷◌, if◌then◌else◌}
use clamp.Prelude.Results.{ok}
use clamp.Text.{codes, mem, text_eq, split, join, strip, is_space, rstrip, lstrip}
use clamp.Text.Decimal.{decimal, digits_value}
use clamp.Version.{version_tuple, int_parts, version_lt, search, shown_version}
use clamp.Preflight.{
  Machine, preflight, local_preflight, report, ready, on_platform, check_platform, is_older,
  missing_tool, tool_found, ripgrep_found, first_executable, filesystem_of, filesystem_outcome,
}
use clamp.Preflight.Ready.{IsReady, preflight_iff}
use clamp.Regex.{run}
use clamp.Patterns.{is_digit}

-- Every program of this machine shows the version 100.0, and the file system is ext4.
abbrev new_machine : Machine
new_machine = record {
  libc = codes "glibc 2.36";
  mac = [];
  python = codes "/usr/bin/python3";
  is_executable = λ path. true;
  output = λ command. if mem (codes "-f") command then ok (codes "ext4 ") else ok (codes "v100.0 ");
  int = λ part. ok (digits_value part);
  lower = λ text. text;
}

running : Unit {0}
unfolding text_eq mem split join strip is_space rstrip lstrip decimal digits_value version_tuple
    int_parts version_lt search shown_version preflight local_preflight report on_platform
    check_platform is_older missing_tool tool_found ripgrep_found first_executable filesystem_of
    filesystem_outcome run is_digit
running = tt

is_ready : preflight new_machine (codes "linux-x86_64") (codes "/r") ≡ ok ready
unfolding running
is_ready = refl

unknown_target :
    local_preflight new_machine (codes "plan9") (codes "/r")
    ≡ ok (codes "target" ∷ codes "plan9" ∷ codes "package" ∷ [])
unfolding running
unknown_target = refl

too_old :
    local_preflight
      (record {
        libc = codes "glibc 2.35";
        mac = [];
        python = [];
        is_executable = λ path. true;
        output = λ command. ok [];
        int = λ part. ok (digits_value part);
        lower = λ text. text;
      })
      (codes "linux-x86_64")
      (codes "/r")
    ≡ ok (codes "target" ∷ codes "linux-x86_64" ∷ codes "package" ∷ [])
unfolding running
too_old = refl

preflight_iff_example : IsReady new_machine (codes "linux-x86_64") (codes "/r")
preflight_iff_example = (preflight_iff new_machine (codes "linux-x86_64") (codes "/r")).0 is_ready
