-- ===== src/Seccomp/Tests.antt =====
-- Runs of labs/07-seccomp-capabilities/main.go, and the theorems at concrete inputs.
use go_systems_lab.Prelude.{
  ◌≡◌, ◌&&◌, refl, [], ◌∷◌, ◌++◌, ◌==◌, if◌then◌else◌, some, ok, err, arith, replicate,
}
use go_systems_lab.Bytes.{Bytes, codes, equal, has_prefix}
use go_systems_lab.Bytes.Dict.{lookup, insert}
use go_systems_lab.Text.Split.{split, cut}
use go_systems_lab.Text.Space.{trim_space, space_width}
use go_systems_lab.Text.Number.{
  syntax, parse_uint, parse_digits, digit_value, format_uint, digits_loop, digit_char,
}
use go_systems_lab.Seccomp.Filter.{
  allowed_syscalls, allow_each, build_seccomp_program, audit_arch_x8664, seccomp_ret_allow,
  seccomp_ret_kill_process,
}
use go_systems_lab.Seccomp.Machine.{SeccompData, decide_call, execute}
use go_systems_lab.Seccomp.Verdict.{elem, decide_call-build_seccomp_program}
use go_systems_lab.Seccomp.Capabilities.{
  parse, no_fields, capability_line, parse_lines, parse_capabilities, print_capabilities,
  print_keys, print_line, zero_pad,
}
use go_systems_lab.Seccomp.Capabilities.RoundTrip.{IsCapKey}

abbrev getpid : SeccompData
getpid = record { nr = 39; arch = audit_arch_x8664 }

getpid_killed :
    decide_call (build_seccomp_program allowed_syscalls) getpid ≡ some seccomp_ret_kill_process
unfolding decide_call build_seccomp_program execute allow_each
getpid_killed = refl

write_allowed :
    decide_call (build_seccomp_program allowed_syscalls) (record getpid { nr = 1 })
    ≡ some seccomp_ret_allow
unfolding decide_call build_seccomp_program execute allow_each
write_allowed = refl

decide_call-build_seccomp_program_example :
    decide_call (build_seccomp_program allowed_syscalls) getpid
    ≡ some (
        if getpid.arch == audit_arch_x8664 && elem getpid.nr allowed_syscalls
        then seccomp_ret_allow
        else seccomp_ret_kill_process)
decide_call-build_seccomp_program_example =
    decide_call-build_seccomp_program allowed_syscalls getpid (omega arith) (omega arith)

-- The status file of main_test.go.
abbrev status : Bytes
status = codes "Name:\tdemo\nCapInh:\t0000000000000000\nCapEff:\t000001ffffffffff\n"

status_parsed :
    parse_capabilities status ≡ ok ((codes "CapInh", 0) ∷ (codes "CapEff", 0x1ffffffffff) ∷ [])
unfolding parse_capabilities parse_lines capability_line cut split has_prefix trim_space space_width
    parse_uint parse_digits digit_value insert equal
status_parsed = refl

status_bad : parse_capabilities (codes "CapEff:\tnot-hex\n") ≡ err (parse (codes "CapEff") syntax)
unfolding parse_capabilities parse_lines capability_line cut split has_prefix trim_space space_width
    parse_uint parse_digits digit_value insert equal
status_bad = refl

status_empty : parse_capabilities (codes "Name:\tdemo\n") ≡ err no_fields
unfolding parse_capabilities parse_lines capability_line cut split has_prefix trim_space space_width
status_empty = refl

printed :
    print_capabilities ((codes "CapEff", 5) ∷ [])
    ≡ (codes "CapEff: 0x0000000000000005 (" ++ replicate 61 b'0' ++ codes "101)\n") ∷ []
unfolding print_capabilities print_keys print_line zero_pad format_uint digits_loop digit_char
    lookup equal
printed = refl

cap_inh : IsCapKey (codes "CapInh")
cap_inh = record {
  rest = codes "Inh";
  cap = refl;
  no_colon = omega arith;
  no_newline = omega arith;
}

cap_eff : IsCapKey (codes "CapEff")
cap_eff = record {
  rest = codes "Eff";
  cap = refl;
  no_colon = omega arith;
  no_newline = omega arith;
}
