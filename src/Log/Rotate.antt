-- ===== src/Log/Rotate.antt =====
-- src/gnb_log.c: the files of a day, and gnb_log_file_rotate on a new day and in the calls after it.
use gnb_udp_over_tcp.Prelude.{
  ℕ, suc, ◌≡◌, refl, ◌≢◌, true, false, Option, none, some, List, [], ◌∷◌, ◌++◌, ◌==◌, if◌then◌else◌,
  arith,
}
use gnb_udp_over_tcp.Network.{has_bit}
use gnb_udp_over_tcp.Log.{
  LogCtx, LogFds, LogType, log_std, log_debug, log_error, Output, close_fd, rename_file,
  output_file, no_fds, if_open,
}

-- `open` gives the three descriptors.
unfoldable pub open_log_file : LogFds → LogCtx → LogCtx
open_log_file opened log = record log { fds = opened }

unfoldable pub close_pre : LogFds → List Output
close_pre pre =
    if_open pre.std_fd (λ fd. close_fd fd ∷ [])
    ++ if_open pre.debug_fd (λ fd. close_fd fd ∷ [])
    ++ if_open pre.error_fd (λ fd. close_fd fd ∷ [])

-- A descriptor that is 0 stays.
abbrev forget_fd : Option ℕ → Option ℕ
forget_fd none = none
forget_fd (some fd) = if fd == 0 then some fd else none

unfoldable pub close_log_file_pre_fd : LogCtx → List Output × LogCtx
unfolding close_pre
close_log_file_pre_fd log = (
  close_pre log.pre_fds,
  record log {
    pre_fds = record {
      std_fd = forget_fd log.pre_fds.std_fd;
      debug_fd = forget_fd log.pre_fds.debug_fd;
      error_fd = forget_fd log.pre_fds.error_fd;
    };
  },
)

-- `archive` gives the name of the archive of a kind, cut at the length of its buffer.
unfoldable pub log_file_rotate :
    (archive : LogType → List ℕ) → (mday : ℕ) → LogFds → LogCtx → ℕ × List Output × LogCtx
unfolding close_log_file_pre_fd open_log_file
log_file_rotate archive mday opened log =
    if mday == log.pre_mday
    then (let closed = close_log_file_pre_fd log in (0, closed.0, closed.1))
    else if has_bit output_file log.output_type
    then (
      0,
      rename_file log.log_file_name_std (archive log_std)
          ∷ rename_file log.log_file_name_debug (archive log_debug)
          ∷ rename_file log.log_file_name_error (archive log_error)
          ∷ [],
      open_log_file opened (record log { pre_mday = mday; pre_fds = log.fds }),
    )
    else (1, [], log)

suc-ne-zero : (n : ℕ) → (suc n == 0) ≡ false
suc-ne-zero n = ground arith

module _ (archive : LogType → List ℕ) (mday : ℕ) (opened later last : LogFds) (log : LogCtx)
    (s d e : ℕ) where
  -- A new day, the next call, and the one after it.
  pub rotate-closes :
      log.fds ≡ record { std_fd = some (suc s); debug_fd = some (suc d); error_fd = some (suc e) }
      → mday ≢ log.pre_mday
      → has_bit output_file log.output_type ≡ true
      → (first second : LogCtx) × (log_file_rotate archive mday opened log ≡ (
        0,
        rename_file log.log_file_name_std (archive log_std)
            ∷ rename_file log.log_file_name_debug (archive log_debug)
            ∷ rename_file log.log_file_name_error (archive log_error)
            ∷ [],
        first,
      ))
        × (first.fds ≡ opened)
        × (log_file_rotate archive mday later first
            ≡ (0, close_fd (suc s) ∷ close_fd (suc d) ∷ close_fd (suc e) ∷ [], second))
        × (second.fds ≡ opened)
        × (log_file_rotate archive mday last second ≡ (0, [], second))
  unfolding log_file_rotate
  rotate-closes fds new_day to_file =
      let other : (mday == log.pre_mday) ≡ false = ground arith in
      let same : (mday == mday) ≡ true = ground arith in
      (
        record log { pre_mday = mday; pre_fds = log.fds; fds = opened },
        record log { pre_mday = mday; pre_fds = no_fds; fds = opened },
        rw (other, to_file) refl,
        refl,
        rw (same, fds, suc-ne-zero s, suc-ne-zero d, suc-ne-zero e) refl,
        refl,
        rw same refl,
      )
