-- ===== src/Server/Connection/Partial.antt =====
-- A request that comes in several reads.
use cs_system_lab.Prelude.{
  ◌+◌, ◌≤◌, ◌<◌, ◌≡◌, refl, sym, ap, ◌∙◌, inl, inr, true, false, List, [], ◌∷◌, Option, none, some,
  arith, length, take-length, length-append, All, concat, ltb, Bool-cases,
}
use cs_system_lab.Prelude.Bytes.{Bytes, codes}
use cs_system_lab.Http.Request.{
  HttpRequest, got_all, has_got_all, parse, appended, max_request_size,
}
use cs_system_lab.Http.Request.Chunks.{run_parse, run_parse_lem, feed, accepted, parse-cases}
use cs_system_lab.Http.Request.Looping.{loop_got_all}
use cs_system_lab.Http.Request.Render.{Message, wants_keep}
use cs_system_lab.Http.Request.Render.RoundTrip.{parsed}
use cs_system_lab.Http.Request.Render.Keeping.{keep_alive-parsed}
use cs_system_lab.Http.Response.{HttpResponse, set_keep_alive, set_body, to_message}
use cs_system_lab.Prelude.Int.{pos}
use cs_system_lab.Server.Connection.{
  World, WriteResult, got, send_message, with_request, buffer_size, Setup, response_to, answered,
  send_response, after_parse, on_read,
}

-- A complete request takes what is read into its buffer.
parse_got_all :
    (r q : HttpRequest) (c : Bytes)
    → r.state ≡ got_all
    → parse r c ≡ some (q, true)
    → q ≡ appended r c
unfolding parse
parse_got_all r q c e h = elim (Bool-cases (ltb max_request_size (length r.buf + length c))) [
  | inl l ↦ (let k : parse r c ≡ some (r, false) = rw l in absurd (cc))
  | inr l ↦
      (let k : parse r c ≡ some (appended r c, true) = rw l (loop_got_all _ (appended r c) e) in cc)
]

feed_got_all :
    (cs : List Bytes) (r q : HttpRequest)
    → r.state ≡ got_all
    → accepted (feed r cs) ≡ some q
    → length q.buf ≡ length r.buf + length (concat cs)
unfolding feed accepted
feed_got_all [] r q e h =
    let same : r ≡ q = cc in omega (arith, ap (λ (x : HttpRequest). length x.buf) same)
feed_got_all (c ∷ cs) r q e h = elim (parse-cases r c) [
  | inl (p, k) ↦
      let same : p ≡ appended r c = parse_got_all r p c e k in
      let rest : feed r (c ∷ cs) ≡ feed p cs = rw k in
      let n =
        feed_got_all cs p q (ap (λ (x : HttpRequest). x.state) same ∙ e)
          (ap accepted (sym rest) ∙ h) in
      omega (
        arith,
        n,
        ap (λ (x : HttpRequest). length x.buf) same,
        length-append r.buf c,
        length-append c (concat cs),
      )
  | inr (p, k) ↦
      let rest : feed r (c ∷ cs) ≡ some (p, false) = rw k in
      let gone : accepted (feed r (c ∷ cs)) ≡ none = ap accepted rest in absurd (cc)
]

has_got_all_lem : (r : HttpRequest) → has_got_all r ≡ true → r.state ≡ got_all
has_got_all_lem r e = ground arith

-- A read of `onRead`.
abbrev pub IsRead : Bytes → Type 0
IsRead c = (0 < length c) × (length c ≤ buffer_size)

module _ (setup : Setup) where
  open setup use {callback, iterate}

  abbrev untouched : HttpResponse
  untouched = record {
    status_code = pos 200;
    status_message = codes "OK";
    headers = [];
    body = [];
    keep_alive = false;
  }

  -- The response that a client is owed: what the user's callback fills in for its request, or a
  -- text where there is no callback, with the connection kept just if the client wants it.
  abbrev filled_in : Option (HttpRequest → HttpResponse → HttpResponse) → Message → HttpResponse
  filled_in none m = record untouched { body = codes "OK\n" }
  filled_in (some f) m = f (parsed m []) untouched

  abbrev pub owed : Message → HttpResponse
  owed m = record (filled_in callback m) { keep_alive = wants_keep m }

  -- The same as bytes.
  abbrev pub reply : Message → Bytes
  reply m = to_message (owed m) (iterate (owed m).headers)

  answered-filled_in :
      (c : Option (HttpRequest → HttpResponse → HttpResponse)) (m : Message)
      → answered setup c (parsed m []) ≡ filled_in c m
  unfolding set_body
  answered-filled_in none m = refl
  answered-filled_in (some f) m = refl

  pub response_to-owed : (m : Message) → response_to setup (parsed m []) ≡ owed m
  unfolding response_to set_keep_alive
  response_to-owed m =
      ap (λ k. set_keep_alive (answered setup callback (parsed m [])) k) (keep_alive-parsed m [])
      ∙ ap (λ (resp : HttpResponse). set_keep_alive resp (wants_keep m))
          (answered-filled_in callback m)

  -- Some calls of `onRead`; `answer` is for the `write` of the one that sends a response.
  unfoldable pub on_reads : WriteResult → List Bytes → World → World
  on_reads answer [] w = w
  on_reads answer (c ∷ cs) w = on_reads answer cs (on_read setup (got c) answer w)

  pub on_read-got :
      (bytes : Bytes) (answer : WriteResult) (w : World)
      → IsRead bytes
      → on_read setup (got bytes) answer w
        ≡ after_parse setup answer w (run_parse w.conn.request bytes)
  unfolding on_read
  on_read-got [] answer w (nonempty, fits) = absurd (omega arith)
  on_read-got (b ∷ bytes) answer w (nonempty, fits) =
      ap (λ t. after_parse setup answer w (run_parse w.conn.request t))
        (take-length buffer_size (b ∷ bytes) fits)

  after_parse-parsed :
      (m : Message) (answer : WriteResult) (w : World)
      → after_parse setup answer w (parsed m [], true)
        ≡ send_message answer (wants_keep m) (reply m) (with_request w (parsed m []))
  unfolding after_parse
  after_parse-parsed m answer w =
      ap (λ resp. send_response setup answer resp (with_request w (parsed m [])))
        (response_to-owed m)

  after_parse-partial :
      (answer : WriteResult) (w : World) (r : HttpRequest)
      → has_got_all r ≡ false
      → after_parse setup answer w (r, true) ≡ with_request w r
  unfolding after_parse
  after_parse-partial answer w r e = rw e

  -- The read that completes a message.
  last_read :
      (c : Bytes) (m : Message) (answer : WriteResult) (w : World)
      → IsRead c
      → accepted (feed w.conn.request (c ∷ [])) ≡ some (parsed m [])
      → on_read setup (got c) answer w
        ≡ send_message answer (wants_keep m) (reply m) (with_request w (parsed m []))
  unfolding feed accepted
  last_read c m answer w v h = elim (parse-cases w.conn.request c) [
    | inl (q, k) ↦
        let run : run_parse w.conn.request c ≡ (q, true) =
          (let e = run_parse_lem w.conn.request c in cc) in
        let rest : feed w.conn.request (c ∷ []) ≡ some (q, true) = rw k in
        let same : q ≡ parsed m [] = (let g = ap accepted rest in cc) in
        on_read-got c answer w v
        ∙ ap (λ p. after_parse setup answer w p) (run ∙ ap (λ x. (x, true)) same)
        ∙ after_parse-parsed m answer w
    | inr (q, k) ↦
        let rest : feed w.conn.request (c ∷ []) ≡ some (q, false) = rw k in
        let gone : accepted (feed w.conn.request (c ∷ [])) ≡ none = ap accepted rest in absurd (cc)
  ]

  -- Reads that bring a message and nothing else: all but the last wait, and the last is answered.
  pub on_reads_lem :
      (cs : List Bytes) (c : Bytes) (m : Message) (answer : WriteResult) (w : World)
      → All IsRead (c ∷ cs)
      → accepted (feed w.conn.request (c ∷ cs)) ≡ some (parsed m [])
      → on_reads answer (c ∷ cs) w
        ≡ send_message answer (wants_keep m) (reply m) (with_request w (parsed m []))
  unfolding on_reads feed accepted
  on_reads_lem [] c m answer w (v, tt) h = last_read c m answer w v h
  on_reads_lem (d ∷ ds) c m answer w (v, vs) h = elim (parse-cases w.conn.request c) [
    | inl (q, k) ↦
        let run : run_parse w.conn.request c ≡ (q, true) =
          (let e = run_parse_lem w.conn.request c in cc) in
        let rest : feed w.conn.request (c ∷ d ∷ ds) ≡ feed q (d ∷ ds) = rw k in
        let later = ap accepted (sym rest) ∙ h in
        elim (Bool-cases (has_got_all q)) [
          | inl all ↦
              let n = feed_got_all (d ∷ ds) q (parsed m []) (has_got_all_lem q all) later in
              absurd (omega (arith, n, length-append d (concat ds), vs.0.0))
          | inr part ↦
              ap (λ x. on_reads answer (d ∷ ds) x)
                (on_read-got c answer w v
                  ∙ ap (λ p. after_parse setup answer w p) run
                  ∙ after_parse-partial answer w q part)
              ∙ on_reads_lem ds d m answer (with_request w q) vs later
        ]
    | inr (q, k) ↦
        let rest : feed w.conn.request (c ∷ d ∷ ds) ≡ some (q, false) = rw k in
        let gone : accepted (feed w.conn.request (c ∷ d ∷ ds)) ≡ none = ap accepted rest in
        absurd (cc)
  ]
