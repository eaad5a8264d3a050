-- ===== src/Tests/Exchange.antt =====
-- Server/Connection/Exchange at two requests.
use cs_system_lab.Prelude.{take, drop, ℕ, ◌≡◌, refl, true, false, inl, [], ◌∷◌, ◌++◌, arith}
use cs_system_lab.Prelude.Bytes.{find, to_lower, eq_bytes}
use cs_system_lab.Http.Request.Render.{IsMessage, render, wants_keep}
use cs_system_lab.Server.Connection.Partial.{reply}
use cs_system_lab.Server.Connection.Answer.{Answered}
use cs_system_lab.Server.Connection.Exchange.{
  Turn, IsTurn, take_turn, take_turns, replies, exchanges-Answered, new_connection-IsIdle,
}
use cs_system_lab.Prelude.Int.{pos}
use cs_system_lab.Server.Connection.{WriteResult, wrote, would_block}
use cs_system_lab.Tests.Server.{setup, opened, loop, get, bye}

get-IsMessage : IsMessage get
unfolding find to_lower
get-IsMessage = record {
  method_word = omega arith;
  version_word = omega arith;
  one_line = omega arith;
  slashed_path = refl;
  http_version = refl;
  well_formed = tt;
  few = omega arith;
  told = inl refl;
  short_body = omega arith;
}

bye-IsMessage : IsMessage bye
unfolding find to_lower eq_bytes
bye-IsMessage = record {
  method_word = omega arith;
  version_word = omega arith;
  one_line = omega arith;
  slashed_path = refl;
  http_version = refl;
  well_formed = (
    record {
      no_colon = omega arith;
      no_break = omega arith;
      solid = refl;
      right_length = λ e. absurd (cc);
    },
    tt,
  );
  few = omega arith;
  told = inl refl;
  short_body = omega arith;
}

abbrev two_more : ℕ → WriteResult
two_more _ = wrote 2

abbrev pub first_turn : Turn
first_turn = record {
  message = get;
  first_read = take 10 (render get []);
  later_reads = drop 10 (render get []) ∷ [];
  answer = wrote 5;
  answers = two_more;
}

abbrev last_turn : Turn
last_turn = record {
  message = bye;
  first_read = render bye [];
  later_reads = [];
  answer = would_block;
  answers = two_more;
}

pub get_kept : wants_keep get ≡ true
unfolding eq_bytes to_lower
get_kept = refl

pub first_turn-IsTurn : IsTurn first_turn
unfolding render
first_turn-IsTurn = record {
  well_formed = get-IsMessage;
  brought = refl;
  reads = ((omega arith, omega arith), ((omega arith, omega arith), tt));
  short = omega arith;
  no_failure = cc;
  takes = λ k. (1, refl);
}

last_turn-IsTurn : IsTurn last_turn
unfolding render
last_turn-IsTurn = record {
  well_formed = bye-IsMessage;
  brought = refl;
  reads = ((omega arith, omega arith), tt);
  short = omega arith;
  no_failure = cc;
  takes = λ k. (1, refl);
}

exchanges-Answered_example :
    Answered opened false
      (replies setup (first_turn ∷ []) ++ reply setup bye)
      (take_turn setup last_turn (take_turns setup (first_turn ∷ []) opened))
unfolding eq_bytes to_lower
exchanges-Answered_example =
    exchanges-Answered setup (first_turn ∷ []) last_turn opened ((first_turn-IsTurn, get_kept), tt)
      last_turn-IsTurn (new_connection-IsIdle 9 (pos 7) loop (record { calls = [] }))
