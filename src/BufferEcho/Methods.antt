-- ===== src/BufferEcho/Methods.antt =====
-- Libevent/demo01.c: the names of the methods that libevent has, each on a line.
use unix_net.Common.{List, [], ◌∷◌, ◌++◌, Bytes, codes}
use unix_net.Sys.{Action, Cmd, ◌>>◌, pure, note}

-- `methods` is the array that libevent gives, up to its null pointer.
unfoldable pub methods_main : List Bytes → Cmd (Unit {0})
methods_main [] = pure tt
methods_main (method ∷ methods) = do
  note (Action.print (method ++ codes "\n"))
  methods_main methods
