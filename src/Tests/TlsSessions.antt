-- ===== src/Tests/TlsSessions.antt =====
-- A TLS stream over a connection that brings a few bytes.
use neo_io.Prelude.{◌≤◌, refl, arith, min, take, length, length-append, Bool-cases, inl, inr}
use neo_io.Transfer.{basic_transfer_result}
use neo_io.Ssl.Engine.{positive}
use neo_io.Ssl.Stream.Proceeds.{Proceeds, HasErrors, AnswersTls, ReadsTls, ConnectsTls, WritesTls}
use neo_io.Ssl.Stream.Stable.{LeavesLog}
use neo_io.Tests.TlsStreams.{after_hello, wire_calls}

-- The SSL object never wants to write.
pub wire-Proceeds : Proceeds wire_calls (λ x. 0) 1
wire-Proceeds = record {
  want_read_lem = λ ret x e. refl;
  accepts = λ bytes x w h. ground arith;
  owes-limit = λ x. omega arith;
  owes-clear = λ x. refl;
  owes-error = λ x. refl;
  wants-error = λ x. refl;
  owes-bio_read = λ n x. refl;
  wants-bio_read = λ n x. refl;
}

pub wire-AnswersTls : AnswersTls wire_calls
wire-AnswersTls = record {
  get_error-positive = λ ret x h. rw h refl;
  get_error-not_positive = λ ret x h. rw h (λ e. cc e);
  ssl-set = λ ret x e z. elim (Bool-cases (positive ret)) [
    | inl h ↦ cc (rw h at e)
    | inr h ↦ cc (rw h at e)
  ];
}

wire-LeavesPlain : LeavesLog wire_calls (λ x. x.plain)
wire-LeavesPlain = record {
  log-clear = λ x. refl;
  log-error = λ x. refl;
  log-bio_read = λ n x. refl;
  log-bio_write = λ bytes x. refl;
}

wire-LeavesGiven : LeavesLog wire_calls (λ x. x.given)
wire-LeavesGiven = record {
  log-clear = λ x. refl;
  log-error = λ x. refl;
  log-bio_read = λ n x. refl;
  log-bio_write = λ bytes x. refl;
}

pub wire-ReadsTls : ReadsTls wire_calls (λ x. 0) (λ x. x.given)
wire-ReadsTls = record {
  read-le = λ n x h. ground arith;
  read-stored = λ n x h. ground arith;
  delivered-success = λ n x h. rw h refl;
  delivered-failure = λ n x h. rw h refl;
  delivered-left = wire-LeavesGiven;
  read-owes = λ n x e. elim (Bool-cases (positive (after_hello x (min n 1)))) [
    | inl h ↦ absurd (cc (rw h at e))
    | inr h ↦ absurd (cc (rw h at e))
  ];
}

pub wire-ConnectsTls : ConnectsTls wire_calls (λ x. 0) (λ x. 2 ≤ length x.got)
wire-ConnectsTls = record {
  connect-success = λ x h. ground arith;
  connect-owes = λ x e. elim (Bool-cases (positive (after_hello x 1))) [
    | inl h ↦ absurd (cc (rw h at e))
    | inr h ↦ absurd (cc (rw h at e))
  ];
  connected-IsKept = record {
    kept-error = λ x q. q;
    kept-bio_read = λ n x q. q;
    kept-bio_write =
        λ bytes x q. omega (arith, length-append x.got (take (min 3 (length bytes)) bytes), q);
  };
}

pub wire-WritesTls : WritesTls wire_calls (λ x. 0) (λ x. x.plain)
wire-WritesTls = record {
  write-le = λ src n x h. ground arith;
  accepted-success = λ src n x h. rw h refl;
  accepted-failure = λ src n x h. rw h refl;
  accepted-left = wire-LeavesPlain;
  write-owes = λ src n x e. elim (Bool-cases (positive (after_hello x n))) [
    | inl h ↦ absurd (cc (rw h at e))
    | inr h ↦ absurd (cc (rw h at e))
  ];
}

pub basic-HasErrors : HasErrors basic_transfer_result
basic-HasErrors r h = h
