-- ===== src/Tests/Stages.antt =====
-- Stages at concrete inputs.
use cs_system_lab.Net.Acceptor
use cs_system_lab.Prelude.Heap.{at_fd}
use cs_system_lab.Stages.SubReactors.Answering
use cs_system_lab.Stages.SubReactors.Answering.{
  Talk, answer, Talked, begun, talked, Answered, Talked-Answered,
}
use cs_system_lab.Stages.SubReactors.Starting
use cs_system_lab.Stages.SubReactors.Starting.{dispatch_client, main-create}
use cs_system_lab.Prelude.{
  ◌≡◌, refl, true, not, ◌&&◌, List, [], ◌∷◌, ◌+◌, none, some, arith, if◌then◌else◌,
}
use cs_system_lab.Prelude.Bytes.{codes, find}
use cs_system_lab.Prelude.Int.{pos, negsuc, eq_int, is_negative}
use cs_system_lab.Reactor.Epoll.{interest}
use cs_system_lab.Reactor.Channel.{enable_reading}
use cs_system_lab.Http.Response.Reading.{read_reply, content_length}
use cs_system_lab.Http.Number.{strtol}
use cs_system_lab.Http.Response.Reading.Lines.{read_lines}
use cs_system_lab.Server.Registry.{find_connection, put_connection}
use cs_system_lab.Stages.{response}
use cs_system_lab.Stages.Blocking.{Round, serving, returned, main, visits, answers, fds, main_lem}
use cs_system_lab.Stages.Echo.{
  EchoServer, create, start, add_client, on_accept, received, EchoEvent, incoming, client_event,
  echo_event, echo_events,
}
use cs_system_lab.Reactor.EventLoop.Lifetime.{open_loop}
use cs_system_lab.Stages.Echo.Tidy.{IsNew, Tidy}
use cs_system_lab.Stages.Echo.Events.{created, AllPossible, IsPossible, echo_events-started}
use cs_system_lab.Stages.SubReactors.{
  System, Reach, begins, steps, accepts, makes, stores, disables, nothing_yet, on_new_connection,
  make_channel, store_channel, disable_channel, reading, removes,
}
use cs_system_lab.Stages.SubReactors.Places.{Safe}
use cs_system_lab.Stages.SubReactors.Ownership.{Reach-Safe}

-- The response says that its body has 13 bytes, and has 14: a client finds one more behind it.
response_long :
    read_reply response
    ≡ some (record {
      head =
          codes "HTTP/1.1 200 OK"
          ∷ codes "Content-Type: text/plain"
          ∷ codes "Content-Length: 13"
          ∷ codes "Connection: close"
          ∷ [];
      body = codes "Hello, World!";
      rest = codes "\n";
    })
unfolding read_reply read_lines response find content_length strtol
response_long = refl

abbrev rounds : List Round
rounds =
    record { conn_fd = pos 4; taken = 200 }
    ∷ record { conn_fd = negsuc 0; taken = 0 }
    ∷ record { conn_fd = pos 4; taken = 10 }
    ∷ []

main_lem_example : main (pos 3) true true rounds ≡ (
    if not (is_negative (pos 3)) && (true && true)
    then serving (record { sent = answers (visits rounds); closed = fds (visits rounds) })
    else returned 1 (if is_negative (pos 3) then [] else pos 3 ∷ []))
main_lem_example = main_lem (pos 3) true true rounds

abbrev started : EchoServer
started = (start true true (created 1 4 9 2 (pos 3))).0

-- Two connections arrive; the first sends something.
abbrev events : List EchoEvent
events =
    incoming ((pos 7, 20) ∷ (pos 8, 21) ∷ (negsuc 0, 0) ∷ [])
    ∷ client_event 20 0x1 (received 5) 100
    ∷ []

abbrev two : EchoServer
two = on_accept ((pos 7, 20) ∷ (pos 8, 21) ∷ (negsuc 0, 0) ∷ []) started

first-IsNew : IsNew started (pos 7) 20
unfolding start create open_loop find_connection eq_int
first-IsNew = record { no_entry = refl; not_own = refl; no_object = refl }

second-IsNew : IsNew (add_client (pos 7) 20 started) (pos 8) 21
unfolding add_client start create find_connection put_connection eq_int enable_reading
second-IsNew = record { no_entry = refl; not_own = refl; no_object = refl }

reading-IsPossible : IsPossible (client_event 20 0x1 (received 5) 100) two
unfolding on_accept add_client start create interest eq_int enable_reading
reading-IsPossible = (pos 7, 1, refl, refl)

events-AllPossible : AllPossible events started
unfolding echo_event
events-AllPossible = (
  λ _. (first-IsNew, λ _. (second-IsNew, λ h. absurd (cc))),
  λ t e. let same : two ≡ t = ground arith in (rw (← same) reading-IsPossible, λ u f. tt),
)

echo_events-started_example : (t : EchoServer) × (echo_events events started ≡ some t) × Tidy t
unfolding start create open_loop eq_int
echo_events-started_example =
    echo_events-started 1 4 9 2 (pos 3) true true events refl refl events-AllPossible

-- A connection arrives, is made and stored by the thread of loop 4, and asks; the thread is about to
-- erase it.
abbrev made_one : System
made_one = make_channel 4 (pos 7) 20 [] (on_new_connection (pos 7) 4 nothing_yet)

abbrev leaving : System
leaving = disable_channel 4 (pos 7) 20 (store_channel 4 (pos 7) 20 made_one)

leaving-Reach : Reach leaving
unfolding on_new_connection make_channel store_channel eq_int removes
leaving-Reach =
    steps
      (steps (steps (steps begins (accepts (pos 7) 4 refl)) (makes 4 (pos 7) 20 [] refl refl refl))
        (stores 4 (pos 7) 20 refl))
      (disables 4 (pos 7) 20 (reading (received 5)) refl refl refl)

Reach-Safe_example : Safe leaving
Reach-Safe_example = Reach-Safe leaving-Reach

-- The same with what is written: 100 bytes of the response.
abbrev quiet : Talk
quiet = record { system = store_channel 4 (pos 7) 20 made_one; sent = at_fd (pos 7) [] (λ fd. []) }

abbrev answered : Talk
answered = record {
  system = leaving;
  sent = at_fd (pos 7) (answer (reading (received 5)) 100 (quiet.sent (pos 7))) quiet.sent;
}

answered-Talked : Talked answered
unfolding on_new_connection make_channel store_channel eq_int removes
answered-Talked =
    talked
      (talked
        (talked (talked begun (Answering.accepts (pos 7) 4 refl))
          (Answering.makes 4 (pos 7) 20 [] refl refl refl))
        (Answering.stores 4 (pos 7) 20 refl))
      (Answering.reads 4 (pos 7) 20 (reading (received 5)) 100 refl refl refl)

Talked-Answered_example : Answered answered
Talked-Answered_example = Talked-Answered answered-Talked

main-create_example :
    let (e, s) = Starting.create 2 (pos 3) true true 9 (record { calls = [] }) in
    let (status, s') = Starting.main (λ i. i + 100) s in
    let ((p, t), closed) =
      Acceptor.on_accept
        (some dispatch_client)
        (pos 7 ∷ pos 8 ∷ negsuc 0 ∷ [])
        ((s'.pool, nothing_yet), []) in
    (status ≡ none) × (t.handed 101 ≡ pos 8 ∷ []) × (closed ≡ [])
main-create_example =
    main-create 2 (pos 3) true true 9 (record { calls = [] }) (λ i. i + 100)
      (pos 7 ∷ pos 8 ∷ negsuc 0 ∷ []) [] 101 refl refl refl
