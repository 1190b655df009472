-- ===== src/Userspace/Shell/Tests.antt =====
-- A pipeline with a redirection, and its printed form.
use base_system.Base.{◌≡◌, refl, ◌≢◌, [], ◌∷◌, arith, codes, inr}
use base_system.Userspace.Shell.{
  Cmd, exec, redir, list, back, done, out_of_fuel, parsecmd, parseline, parsepipe, parseexec,
  parseblock, parseargs, parseredirs, parsebacks, if_read, peek, starts_with, gettoken, token_from,
  token_at, greater_token, skip, word, after_word, strchr, wrap,
}
use base_system.Userspace.Shell.Progress.{parsecmd-total}
use base_system.Userspace.Shell.Print.{print_to, IsSayable}
use base_system.Userspace.Shell.Print.Roundtrip.{parsecmd-print_to}

abbrev sample : Cmd
sample =
    list (redir (exec (codes "ls" ∷ codes "bin" ∷ [])) (codes "out") 0x101 1)
      (back (exec (codes "wc" ∷ [])))

parsed : parsecmd (codes " ls bin >out ; wc&") ≡ done sample []
unfolding parsecmd parseline parsepipe parseexec parseblock parseargs parseredirs parsebacks if_read
    peek starts_with gettoken token_from token_at greater_token skip word after_word strchr wrap
parsed = refl

sample-IsSayable : IsSayable sample
unfolding strchr
sample-IsSayable = (
  (
    (
      omega arith,
      ((omega arith, (refl, (refl, tt))), ((omega arith, (refl, (refl, (refl, tt)))), tt)),
    ),
    (omega arith, (refl, (refl, (refl, tt)))),
    inr (refl, refl),
  ),
  (omega arith, ((omega arith, (refl, (refl, tt))), tt)),
)

parsecmd-print_to_example : parsecmd (print_to sample []) ≡ done sample []
parsecmd-print_to_example = parsecmd-print_to sample sample-IsSayable

parsecmd-total_example : parsecmd (codes "ls |") ≢ out_of_fuel
parsecmd-total_example = parsecmd-total (codes "ls |")
