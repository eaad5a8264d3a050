-- ===== src/Stages/SubReactors/Answering.antt =====
-- main_stage3.cpp with what is written: `onRead` writes the response once and ends the connection.
use cs_system_lab.Prelude.{
  ℕ, zero, suc, ◌≤◌, ◌≡◌, ◌⊎◌, refl, sym, ◌∙◌, true, false, inl, inr, List, [], ◌∷◌, ◌++◌, take,
  some, arith, Bool-cases, ==_refl,
}
use cs_system_lab.Prelude.Bytes.{Bytes}
use cs_system_lab.Prelude.Heap.{at_fd}
use cs_system_lab.Prelude.Int.{ℤ, eq_int, eq_int_refl, eq_int→eq}
use cs_system_lab.Net.Socket.Ownership.{count, count-append}
use cs_system_lab.Stages.{response}
use cs_system_lab.Stages.Echo.{received, no_data, broken}
use cs_system_lab.Stages.SubReactors.{
  idle, storing, erasing, closing, System, nothing_yet, on_new_connection, make_channel,
  store_channel, disable_channel, erase_client, close_fd, Cause, reading, hung_up, ends, Reach,
  begins, steps,
}
use cs_system_lab.Stages.SubReactors
use cs_system_lab.Stages.SubReactors.Places.{Place, pointer, times_queued}
use cs_system_lab.Stages.SubReactors.Ownership.{Reach-Placed}

-- Beside the system, what each descriptor was given by `write` since it was accepted.
pub record Talk : Type 0 where
  pub system : System
  pub sent : ℤ → List Bytes

abbrev pub nothing_said : Talk
nothing_said = record { system = nothing_yet; sent = λ fd. [] }

-- `write` in `onRead`; `taken` is the number of bytes that it takes, 0 also where it fails.
unfoldable pub answer : Cause → ℕ → List Bytes → List Bytes
answer (reading (received zero)) taken sent = sent
answer (reading (received (suc n))) taken sent = sent ++ take taken response ∷ []
answer (reading no_data) taken sent = sent
answer (reading broken) taken sent = sent
answer hung_up taken sent = sent

-- A step of the threads. The handler of an event that ends the connection writes before it does.
pub data Talks (t : Talk) : Talk → Type 0 where
  accepts :
      (fd : ℤ) (l : ℕ)
      → t.system.opened fd ≡ false
      → Talks t (record { system = on_new_connection fd l t.system; sent = at_fd fd [] t.sent })
  makes :
      (l : ℕ) (fd : ℤ) (a : ℕ) (rest : List ℤ)
      → t.system.pc l ≡ idle
      → t.system.handed l ≡ fd ∷ rest
      → t.system.alive a ≡ false
      → Talks t (record t { system = make_channel l fd a rest t.system })
  stores :
      (l : ℕ) (fd : ℤ) (a : ℕ)
      → t.system.pc l ≡ storing fd a
      → Talks t (record t { system = store_channel l fd a t.system })
  reads :
      (l : ℕ) (fd : ℤ) (a : ℕ) (c : Cause) (taken : ℕ)
      → t.system.pc l ≡ idle
      → t.system.registered l fd ≡ some a
      → ends c ≡ true
      → Talks t (record {
        system = disable_channel l fd a t.system;
        sent = at_fd fd (answer c taken (t.sent fd)) t.sent;
      })
  keeps :
      (l : ℕ) (fd : ℤ) (a : ℕ) (c : Cause)
      → t.system.pc l ≡ idle
      → t.system.registered l fd ≡ some a
      → ends c ≡ false
      → Talks t t
  erases :
      (l : ℕ) (fd : ℤ) (a : ℕ)
      → t.system.pc l ≡ erasing fd a
      → Talks t (record t { system = erase_client l fd t.system })
  closes :
      (l : ℕ) (fd : ℤ)
      → t.system.pc l ≡ closing fd
      → Talks t (record t { system = close_fd l fd t.system })

pub data Talked : Talk → Type 0 where
  begun : Talked nothing_said
  talked : {t u : Talk} → Talked t → Talks t u → Talked u

Talked-Reach : {t : Talk} → Talked t → Reach t.system
Talked-Reach begun = begins
Talked-Reach (talked r (accepts fd l h)) = steps (Talked-Reach r) (SubReactors.accepts fd l h)
Talked-Reach (talked r (makes l fd a rest i q h)) =
    steps (Talked-Reach r) (SubReactors.makes l fd a rest i q h)
Talked-Reach (talked r (stores l fd a i)) = steps (Talked-Reach r) (SubReactors.stores l fd a i)
Talked-Reach (talked r (reads l fd a c n i w e)) =
    steps (Talked-Reach r) (SubReactors.disables l fd a c i w e)
Talked-Reach (talked r (keeps l fd a c i w e)) = Talked-Reach r
Talked-Reach (talked r (erases l fd a i)) = steps (Talked-Reach r) (SubReactors.erases l fd a i)
Talked-Reach (talked r (closes l fd i)) = steps (Talked-Reach r) (SubReactors.closes l fd i)

-- A connection that waits in a queue or is watched has been given nothing, and any other at most as
-- much of the response as one `write` takes.
pub record Answered (t : Talk) : Type 0 where
  pub queued_silent : (l : ℕ) (fd : ℤ) → 1 ≤ count fd (t.system.handed l) → t.sent fd ≡ []
  pub watched_silent : (l : ℕ) (fd : ℤ) (a : ℕ) → t.system.registered l fd ≡ some a → t.sent fd ≡ []
  pub once : (fd : ℤ) → (t.sent fd ≡ []) ⊎ ((k : ℕ) × (t.sent fd ≡ take k response ∷ []))

-- What one handler writes to a connection that has been given nothing.
answer-once :
    (c : Cause) (taken : ℕ)
    → (answer c taken [] ≡ []) ⊎ ((k : ℕ) × (answer c taken [] ≡ take k response ∷ []))
unfolding answer
answer-once (reading (received zero)) taken = inl refl
answer-once (reading (received (suc n))) taken = inr (taken, refl)
answer-once (reading no_data) taken = inl refl
answer-once (reading broken) taken = inl refl
answer-once hung_up taken = inl refl

-- A descriptor that is watched is in no queue and known to no other epoll.
watched-not_queued : (l k a : ℕ) (p : Place) → pointer l p ≡ some a → times_queued k p ≡ 0
watched-not_queued l k a p h = ground arith

watched-one_loop : (l k a b : ℕ) (p : Place) → pointer l p ≡ some a → pointer k p ≡ some b → l ≡ k
watched-one_loop l k a b p h g = ground arith

module _ (t : Talk) (v : Answered t) where
  open v use {queued_silent, watched_silent, once}

  accepts-Answered :
      (fd : ℤ) (l : ℕ)
      → Answered (record { system = on_new_connection fd l t.system; sent = at_fd fd [] t.sent })
  unfolding on_new_connection
  accepts-Answered fd l = record {
    queued_silent = λ k d h. ground (
      arith,
      queued_silent k d,
      count-append d (t.system.handed l) (fd ∷ []),
      eq_int→eq fd d,
      eq_int→eq d fd,
    );
    watched_silent = λ k d a h. ground (arith, watched_silent k d a);
    once = λ d. elim (Bool-cases (eq_int fd d)) [ inl e ↦ inl (rw e refl) | inr e ↦ rw e (once d) ];
  }

  makes-Answered :
      (l : ℕ) (fd : ℤ) (a : ℕ) (rest : List ℤ)
      → t.system.handed l ≡ fd ∷ rest
      → Answered (record t { system = make_channel l fd a rest t.system })
  unfolding make_channel
  makes-Answered l fd a rest q = record {
    queued_silent = λ k d h. ground (arith, queued_silent k d);
    watched_silent = λ k d b h.
        ground (arith, watched_silent k d b, queued_silent l fd, eq_int_refl fd, eq_int→eq fd d);
    once = once;
  }

  reads-Answered :
      (l : ℕ) (fd : ℤ) (a : ℕ) (c : Cause) (taken : ℕ)
      → Reach t.system
      → t.system.registered l fd ≡ some a
      → Answered (record {
        system = disable_channel l fd a t.system;
        sent = at_fd fd (answer c taken (t.sent fd)) t.sent;
      })
  unfolding disable_channel
  reads-Answered l fd a c taken r w =
      let (place, p) = Reach-Placed r in
      let here : pointer l (place fd) ≡ some a = sym ((p.held l fd).registered) ∙ w in
      record {
        queued_silent = λ k d h. ground (
          arith,
          queued_silent k d,
          p.held k fd,
          watched-not_queued l k a (place fd),
          eq_int→eq fd d,
        );
        watched_silent = λ k d b h. ground (
          arith,
          watched_silent k d b,
          p.held k fd,
          watched-one_loop l k a b (place fd),
          eq_int→eq fd d,
          eq_int_refl fd,
          ==_refl l,
        );
        once = λ d. elim (Bool-cases (eq_int fd d)) [
          | inl e ↦ rw (e, watched_silent l fd a w) (answer-once c taken)
          | inr e ↦ rw e (once d)
        ];
      }

-- Whatever the threads do and in whatever order: since it was accepted, a descriptor has been given
-- nothing, or once as much of the response as one `write` took; and one that waits to be made into a
-- connection, or that an epoll watches, has been given nothing.
pub Talked-Answered : {t : Talk} → Talked t → Answered t
unfolding store_channel erase_client close_fd
Talked-Answered begun = record {
  queued_silent = λ l fd h. refl;
  watched_silent = λ l fd a h. refl;
  once = λ fd. inl refl;
}
Talked-Answered (talked {t = t} r (accepts fd l h)) = accepts-Answered t (Talked-Answered r) fd l
Talked-Answered (talked {t = t} r (makes l fd a rest i q h)) =
    makes-Answered t (Talked-Answered r) l fd a rest q
Talked-Answered (talked r (stores l fd a i)) =
    (let v = Talked-Answered r in
      record { queued_silent = v.queued_silent; watched_silent = v.watched_silent; once = v.once })
Talked-Answered (talked {t = t} r (reads l fd a c n i w e)) =
    reads-Answered t (Talked-Answered r) l fd a c n (Talked-Reach r) w
Talked-Answered (talked r (keeps l fd a c i w e)) = Talked-Answered r
Talked-Answered (talked r (erases l fd a i)) =
    (let v = Talked-Answered r in
      record { queued_silent = v.queued_silent; watched_silent = v.watched_silent; once = v.once })
Talked-Answered (talked r (closes l fd i)) =
    (let v = Talked-Answered r in
      record { queued_silent = v.queued_silent; watched_silent = v.watched_silent; once = v.once })
