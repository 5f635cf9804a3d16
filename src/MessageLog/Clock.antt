-- ===== src/MessageLog/Clock.antt =====
-- The stop watch of WebServer/test/log.c.
use unix_net.Common.{ℕ, ◌+◌, ◌*◌, ◌≡◌, arith}
use unix_net.CString.Integer.{ℤ, pos, sub_ℕ}

-- `struct timeval`, as `gettimeofday` stores it.
pub record Timeval : Type 0 where
  pub tv_sec : ℕ
  pub tv_usec : ℕ

-- The static variable `be_stime` is set to the present time.
pub begusec_process : (be_stime now : Timeval) → Timeval
begusec_process be_stime now = now

-- A `long` has room for the difference of two times of the next hundred thousand years.
pub getusec_process : (be_stime now : Timeval) → ℤ
getusec_process be_stime now =
    sub_ℕ (now.tv_sec * 1000000 + now.tv_usec) (be_stime.tv_sec * 1000000 + be_stime.tv_usec)

abbrev pub microseconds : Timeval → ℕ
microseconds t = t.tv_sec * 1000000 + t.tv_usec

-- The watch shows the time between its start and now, whatever was measured before; no borrow is
-- lost where the microseconds of the start are the greater ones.
pub getusec_process-begusec_process :
    (before start now : Timeval) (n : ℕ)
    → microseconds now ≡ microseconds start + n
    → getusec_process (begusec_process before start) now ≡ pos n
unfolding getusec_process begusec_process
getusec_process-begusec_process before start now n h = ground arith
