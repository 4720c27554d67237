-- ===== src/Http/Server/Logging.antt =====
-- The middleware that logs each request (`logRequests` and `statusRecorder` of
-- go-key-service/internal/httpapi/handlers.go). The response writer of net/http is a parameter; a handler
-- is what it calls on its writer, given whether the writer can flush.
use crypto_agent.Prelude.{
  ℕ, Bool, true, false, Option, none, some, List, [], ◌∷◌, Bytes, ◌≡◌, refl, sym, ap, ◌∙◌,
}

-- `http.ResponseWriter` on a state, with its `Flush` if it is an `http.Flusher`
pub record Writer (S : Type 0) : Type 0 where
  pub write_header : ℕ → S → S
  pub write : Bytes → S → S
  pub flush : Option (S → S)

pub data WriterCall : Type 0 where
  header : ℕ → WriterCall
  body : Bytes → WriterCall
  flushes : WriterCall

abbrev pub Handler : Type 0
Handler = Bool → List WriterCall

pub record StatusRecorder (S : Type 0) : Type 0 where
  pub inner : S
  pub status : ℕ

unfoldable pub is_flusher : {S : Type 0} → Writer S → Bool
is_flusher w = elim w.flush [ none ↦ false | some f ↦ true ]

-- one call on a writer; a handler does not flush a writer that cannot
unfoldable pub call : {S : Type 0} → Writer S → WriterCall → S → S
call w (header status) s = w.write_header status s
call w (body bytes) s = w.write bytes s
call w flushes s = elim w.flush [ none ↦ s | some f ↦ f s ]

unfoldable pub call_all : {S : Type 0} → Writer S → List WriterCall → S → S
unfolding call
call_all w [] s = s
call_all w (c ∷ cs) s = call_all w cs (call w c s)

-- `next.ServeHTTP(w, r)`
unfoldable pub serve_http : {S : Type 0} → Writer S → Handler → S → S
unfolding call_all is_flusher
serve_http w handler s = call_all w (handler (is_flusher w)) s

-- The recorder as a writer: it notes the status, passes `Write` on by embedding, and flushes what is below
-- it, if that can.
unfoldable pub recorder : {S : Type 0} → Writer S → Writer (StatusRecorder S)
recorder w = record {
  write_header = λ status r. record { inner = w.write_header status r.inner; status = status };
  write = λ bytes r. record r { inner = w.write bytes r.inner };
  flush = some (λ r. elim w.flush [ none ↦ r | some f ↦ record r { inner = f r.inner } ]);
}

-- `logRequests`: the status of the log line, and what has become of the writer
unfoldable pub log_requests : {S : Type 0} → Writer S → Handler → S → ℕ × S
unfolding serve_http recorder
log_requests w handler s =
    let r = serve_http (recorder w) handler (record { inner = s; status = 200 }) in
    (r.status, r.inner)

-- the status of the last header, or the one given
unfoldable pub last_status : ℕ → List WriterCall → ℕ
last_status n [] = n
last_status n (header status ∷ cs) = last_status status cs
last_status n (_ ∷ cs) = last_status n cs

call_all-recorder :
    {S : Type 0} (w : Writer S) (f : S → S) (cs : List WriterCall) (s : S) (n : ℕ)
    → w.flush ≡ some f
    → call_all (recorder w) cs (record { inner = s; status = n })
      ≡ record { inner = call_all w cs s; status = last_status n cs }
unfolding call_all call recorder last_status
call_all-recorder w f [] s n h = refl
call_all-recorder w f (header status ∷ cs) s n h =
    call_all-recorder w f cs (w.write_header status s) status h
call_all-recorder w f (body bytes ∷ cs) s n h = call_all-recorder w f cs (w.write bytes s) n h
call_all-recorder w f (flushes ∷ cs) s n h = rw h (call_all-recorder w f cs (f s) n h)

can_flush : {S : Type 0} (w : Writer S) (f : S → S) → w.flush ≡ some f → is_flusher w ≡ true
unfolding is_flusher
can_flush w f h = rw h refl

-- On a writer that can flush, the middleware does nothing to a handler's response: the writer comes out as
-- without it, streaming included. The status that it logs is the handler's last one, or 200 where the
-- handler sets none.
pub log_requests-serve_http :
    {S : Type 0} (w : Writer S) (f : S → S) (handler : Handler) (s : S)
    → w.flush ≡ some f
    → log_requests w handler s ≡ (last_status 200 (handler true), serve_http w handler s)
unfolding log_requests serve_http is_flusher recorder
log_requests-serve_http w f handler s h =
    ap (λ r. (r.status, r.inner)) (call_all-recorder w f (handler true) s 200 h)
    ∙ ap (λ b. (last_status 200 (handler true), call_all w (handler b) s)) (sym (can_flush w f h))
