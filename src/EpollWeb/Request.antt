-- ===== src/EpollWeb/Request.antt =====
-- The request line: what `main` makes of it.
use unix_net.Common.{
  ℕ, suc, ◌≡◌, refl, sym, ap, ◌∙◌, Bool, true, false, if◌then◌else◌, none, some, List, [], ◌∷◌,
  ◌++◌, Bytes, codes, All, append-nil, ◌==◌, length,
}
use unix_net.Sys.{pure, Answer, Log, ok, crashed}
use unix_net.CString.{equal, strtok, break_at, until_zero}
use unix_net.Files.{Files}
use unix_net.Readline.{LineResult}
use unix_net.EpollWeb.Response.{send_data}
use unix_net.EpollWeb.Server.{serve_result, serve_line, serve_name}

-- A word of a request line: no blank and no zero, and at least one byte.
abbrev pub IsWord : ℕ → Bytes → Type 0
IsWord c rest = All (λ b. ((b == b' ') ≡ false) × ((b == 0) ≡ false)) (c ∷ rest)

break_at_word :
    (word rest : Bytes)
    → All (λ b. ((b == b' ') ≡ false) × ((b == 0) ≡ false)) word
    → break_at b' ' (word ++ (b' ' ∷ rest)) ≡ (word, rest)
unfolding break_at
break_at_word [] rest h = refl
break_at_word (b ∷ word) rest h = rw (h.0.0, break_at_word word rest h.1)

strtok_word :
    (c : ℕ) (word rest : Bytes)
    → IsWord c word
    → strtok b' ' (c ∷ (word ++ (b' ' ∷ rest))) ≡ some (c ∷ word, rest)
unfolding strtok
strtok_word c word rest h = rw h.0.0 (rw h.0.0 (rw (break_at_word word rest h.1)))

until_zero_word :
    (word rest : Bytes)
    → All (λ b. ((b == b' ') ≡ false) × ((b == 0) ≡ false)) word
    → until_zero (word ++ rest) ≡ word ++ until_zero rest
unfolding until_zero
until_zero_word [] rest h = refl
until_zero_word (b ∷ word) rest h = rw h.0.1 (ap (◌∷◌ b) (until_zero_word word rest h.1))

break_at_end :
    (word : Bytes)
    → All (λ b. ((b == b' ') ≡ false) × ((b == 0) ≡ false)) word
    → break_at b' ' word ≡ (word, [])
unfolding break_at
break_at_end [] h = refl
break_at_end (b ∷ word) h = rw (h.0.0, break_at_end word h.1)

strtok_end : (c : ℕ) (word : Bytes) → IsWord c word → strtok b' ' (c ∷ word) ≡ some (c ∷ word, [])
unfolding strtok
strtok_end c word h = rw h.0.0 (rw h.0.0 (rw (break_at_end word h.1)))

strtok_nil : strtok b' ' [] ≡ none
unfolding strtok
strtok_nil = refl

until_zero_nil : until_zero [] ≡ []
unfolding until_zero
until_zero_nil = refl

until_zero_blank : (s : Bytes) → until_zero (b' ' ∷ s) ≡ b' ' ∷ until_zero s
unfolding until_zero
until_zero_blank s = refl

-- A line of the shape `method name rest`.
abbrev pub request_line : (method name rest : Bytes) → Bytes
request_line method name rest = method ++ (b' ' ∷ (name ++ (b' ' ∷ rest)))

until_zero-request_line :
    (m n : ℕ) (method name rest : Bytes)
    → IsWord m method
    → IsWord n name
    → until_zero (request_line (m ∷ method) (n ∷ name) rest)
      ≡ request_line (m ∷ method) (n ∷ name) (until_zero rest)
until_zero-request_line m n method name rest hm hn =
    until_zero_word (m ∷ method) _ hm
    ∙ ap (◌++◌ (m ∷ method)) (
        until_zero_blank _
        ∙ ap (◌∷◌ b' ')
            (until_zero_word (n ∷ name) _ hn ∙ ap (◌++◌ (n ∷ name)) (until_zero_blank rest)))

-- The result of `Readline` for a line of this text.
abbrev pub read_line : Bytes → Bytes → LineResult
read_line text cache = record { result = some (length text); text = text; cache = cache }

module _ (files : Files) (fd : ℕ) (m : ℕ) (method cache : Bytes) (w : List Answer) (log : Log) where
  -- A line of at least two words: a request by GET is answered for the path that is the second
  -- word, and any other method gets no answer, with the connection left as it is. A line of one
  -- word makes the server use a null pointer.
  pub serve_request :
      (n : ℕ) (name rest : Bytes)
      → IsWord m method
      → IsWord n name
      → let r = read_line (request_line (m ∷ method) (n ∷ name) rest) cache in
        (serve_result files fd r r.result w log ≡ (
          if equal (codes "GET") (m ∷ method)
          then send_data files fd (n ∷ name) w log
          else ok tt w log))
        × (serve_result files fd (read_line (m ∷ method) cache) (some (suc (length method))) w log
            ≡ crashed log)
  serve_request n name rest hm hn = (
    served ∙ branches (equal (codes "GET") (m ∷ method)),
    rw (until_zero_all, strtok_end m method hm, strtok_nil),
  )
    where
      until_zero_all : until_zero (m ∷ method) ≡ m ∷ method
      until_zero_all =
          ap until_zero (sym (append-nil (m ∷ method)))
          ∙ until_zero_word (m ∷ method) [] hm
          ∙ ap (◌++◌ (m ∷ method)) until_zero_nil
          ∙ append-nil (m ∷ method)

      served :
          serve_line files fd
            (strtok b' ' (until_zero (request_line (m ∷ method) (n ∷ name) rest)))
            w
            log
          ≡ serve_name files fd (m ∷ method) (some (n ∷ name, until_zero rest)) w log
      served = rw (
        until_zero-request_line m n method name rest hm hn,
        strtok_word m method _ hm,
        strtok_word n name _ hn,
      )

      branches :
          (get : Bool)
          → (if get then send_data files fd (n ∷ name) else pure tt) w log
            ≡ (if get then send_data files fd (n ∷ name) w log else ok tt w log)
      branches true = refl
      branches false = refl
