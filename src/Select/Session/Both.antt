-- ===== src/Select/Session/Both.antt =====
-- A whole run of the two select servers, TcpServerDemo/selectFun.c and selectFunTeacher.c.
use unix_net.Sys.{Run}
use unix_net.Sys.Alike.{Alike}
use unix_net.Select as Pupil
use unix_net.Select.Teacher as Teacher
