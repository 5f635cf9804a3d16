-- ===== src/Raw/Send.antt =====
-- `SendTo`, which udpMessage.c, arpDeceit.c and getMacAddr.c share, and what the three programs do
-- around their frames.
use unix_net.Common.{
  ℕ, Option, none, some, List, [], ◌∷◌, ◌++◌, Bytes, codes, ◌==◌, ltb, if◌then◌else◌, length,
}
use unix_net.Sys.{
  Answer, fail, value, Action, blocked, Cmd, ◌>>=◌, ◌>>◌, pure, call, note, crash, halt,
}
use unix_net.CString.{until_zero}
use unix_net.CString.Integer.{ℤ, pos, negsuc, decimal_ℤ, is_blank, skip_blanks}
use unix_net.Files.{descriptor, window}
use unix_net.Wrap.{stored}
use unix_net.ByteOrder.{Host, htons}
use unix_net.Raw.Frame.{field16}
use unix_net.Raw.Arp.{deceit, arp_request, reply_of}
use unix_net.Raw.Udp.{udp_frame}

-- Sends a frame on an interface; without its index the program ends with status 255.
abbrev pub send_on : ℕ → Bytes → Answer → Cmd Answer
send_on fd msg (fail e) = do note (Action.close fd); halt 255
send_on fd msg a = call (Action.send_frame fd (value a) msg)

unfoldable pub send_to : ℕ → Bytes → Bytes → Cmd Answer
send_to fd msg if_name = call (Action.interface_index fd if_name) >>= send_on fd msg

-- An answer as the `int` that is printed.
abbrev pub int_of : Answer → ℤ
int_of (fail e) = negsuc 0
int_of a = pos (value a)

-- The raw socket for all protocols; a failure is printed and not looked at further.
unfoldable pub raw_socket : Host → Cmd ℕ
raw_socket host = do
  fd ← call (Action.socket 17 3 (htons host 3))
  note (Action.print (codes "create sock_raw:" ++ (decimal_ℤ (int_of fd) ++ codes "\n")))
  pure (descriptor fd)

-- `scanf("%s", data)` on what is typed: the first word.
unfoldable pub word : Bytes → Bytes
word [] = []
word (c ∷ s) = if is_blank c then [] else c ∷ word s

-- The prompt of udpMessage.c, in UTF-8.
abbrev pub prompt : Bytes
prompt =
    0xe8 ∷ 0xaf ∷ 0xb7 ∷ 0xe8 ∷ 0xbe ∷ 0x93 ∷ 0xe5 ∷ 0x85 ∷ 0xa5 ∷ 0xe8 ∷ 0xa6 ∷ 0x81 ∷ 0xe5 ∷ 0x8f
    ∷ 0x91 ∷ 0xe9 ∷ 0x80 ∷ 0x81 ∷ 0xe7 ∷ 0x9a ∷ 0x84 ∷ 0xe6 ∷ 0x95 ∷ 0xb0 ∷ 0xe6 ∷ 0x8d ∷ 0xae
    ∷ b'\n' ∷ []

-- `main` of udpMessage.c. A word that does not fit its array of 128 bytes overruns it.
unfoldable pub udp_main : Host → Bytes → Cmd (Unit {0})
udp_main host input = do
  fd ← raw_socket host
  note (Action.print prompt)
  let text = word (skip_blanks input)
  if ltb (length text) 128 then pure tt else crash
  send_to fd (udp_frame host (until_zero text)) (codes "ens33")
  note (Action.close fd)

-- `main` of arpDeceit.c.
unfoldable pub send_frames : ℕ → List Bytes → Cmd (Unit {0})
send_frames fd [] = pure tt
send_frames fd (frame ∷ frames) = do
  send_to fd frame (codes "ens33")
  note (Action.sleep 1)
  send_frames fd frames

unfoldable pub deceit_main : Host → Cmd (Unit {0})
deceit_main host = do fd ← raw_socket host; send_frames fd (deceit host); note (Action.close fd)

-- What getMacAddr.c prints, in UTF-8.
abbrev pub sent_text : Answer → Bytes
sent_text len =
    (0xe5 ∷ 0x8f ∷ 0x91 ∷ 0xe5 ∷ 0x87 ∷ 0xba ∷ 0xe9 ∷ 0x95 ∷ 0xbf ∷ 0xe5 ∷ 0xba ∷ 0xa6 ∷ 0xe4 ∷ 0xb8
      ∷ 0xba ∷ b':' ∷ [])
    ++ (decimal_ℤ (int_of len)
        ++ (0xe7 ∷ 0x9a ∷ 0x84 ∷ 0xe6 ∷ 0x95 ∷ 0xb0 ∷ 0xe6 ∷ 0x8d ∷ 0xae ∷ b'\n' ∷ []))

abbrev pub arp_text : Bytes
arp_text =
    0xe4 ∷ 0xb8 ∷ 0x8a ∷ 0xe5 ∷ 0xb1 ∷ 0x82 ∷ 0xe4 ∷ 0xb8 ∷ 0xba ∷ b'a' ∷ b'r' ∷ b'p' ∷ 0xe6 ∷ 0x8a
    ∷ 0xa5 ∷ 0xe6 ∷ 0x96 ∷ 0x87 ∷ b'\n' ∷ []

abbrev pub reply_text : Bytes → Bytes → Bytes
reply_text ip mac =
    (b'A' ∷ b'R' ∷ b'P' ∷ 0xe5 ∷ 0xba ∷ 0x94 ∷ 0xe7 ∷ 0xad ∷ 0x94 ∷ b'I' ∷ b'P' ∷ 0xef ∷ 0xbc ∷ 0x9a
      ∷ [])
    ++ (ip
        ++ ((b';' ∷ 0xe5 ∷ 0xaf ∷ 0xb9 ∷ 0xe5 ∷ 0xba ∷ 0x94 ∷ b'M' ∷ b'a' ∷ b'c' ∷ 0xe5 ∷ 0x9c
              ∷ 0xb0 ∷ 0xe5 ∷ 0x9d ∷ 0x80 ∷ b':' ∷ [])
            ++ (mac ++ codes "\n")))

-- The loop of getMacAddr.c over what `recvfrom` gives. A failure leaves the zeroed array.
abbrev pub after_frame : Option (Bytes × Bytes) → Cmd (Unit {0}) → Cmd (Unit {0})
after_frame none later = later
after_frame (some (ip, mac)) later = note (Action.print (reply_text ip mac))

unfoldable pub wait_reply : Host → ℕ → Cmd (Unit {0})
wait_reply host fd [] log = blocked (Action.recvfrom fd 1500 ∷ log)
wait_reply host fd (a ∷ w) log =
    let buf = window 1500 (stored a) in
    let log' = Action.recvfrom fd 1500 ∷ log in
    let next = wait_reply host fd w in
    if field16 host buf 12 == 0x0806
    then after_frame (reply_of host buf) (λ _. next) w (Action.print arp_text ∷ log')
    else next log'

unfoldable pub mac_main : Host → Cmd (Unit {0})
mac_main host = do
  fd ← raw_socket host
  len ← send_to fd arp_request (codes "ens33")
  note (Action.print (sent_text len))
  wait_reply host fd
  note (Action.close fd)
