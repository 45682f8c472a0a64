-- ===== src/Logging/Tests.antt =====
-- logging.c on some messages.
use umsftpd.Prelude.{◌≡◌, refl, List, [], ◌∷◌, codes, arith}
use umsftpd.Logging.{critical, info, warn, debug, LogCall, llvl_set, message, run_calls, logmsg}
use umsftpd.Logging.Reader.{read_log, admitted, read_log-run_calls}

abbrev calls : List LogCall
calls =
    message info (codes "a")
    ∷ llvl_set warn
    ∷ message warn (codes "b")
    ∷ message debug (codes "c")
    ∷ []

run_calls_test : (run_calls critical calls).1 ≡ codes "[W]: b\n"
unfolding run_calls logmsg
run_calls_test = refl

read_log-run_calls_example : read_log (run_calls critical calls).1 ≡ admitted critical calls
read_log-run_calls_example =
    read_log-run_calls critical calls (
      ((λ e. ground arith), tt),
      (tt, (((λ e. ground arith), tt), (((λ e. ground arith), tt), tt))),
    )
