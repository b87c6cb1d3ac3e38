-- ===== src/Ipc/Tests.antt =====
-- ipcProtocol.js and daemonIpc.js at concrete inputs.
use task_manger_project.Common.{
  ℕ, refl, true, false, Option, none, some, List, [], arith, ◌≡◌, ◌∷◌, ◌++◌,
}
use task_manger_project.Ipc.Protocol.{
  Codec, IsFaithful, frame, encode_frame, decode_frame, heartbeat, config_updated,
}
use task_manger_project.Ipc.Protocol.RoundTrip.{decode-encode}
use task_manger_project.Ipc.Client.{Client, stop}
use task_manger_project.Ipc.Client.Reconnect.{
  Call, closes, sends, gets, fires, Fits, apply_all, apply_all-Fits,
}
use task_manger_project.Ipc.Client.Backoff.{
  IsDown, closes_late, sends_late, gets_late, stopped_for_good,
}

-- A payload is a number, and its text one character with the number as its code.
from_text : List ℕ → Option ℕ
from_text (n ∷ []) = some n
from_text _ = none

abbrev plain : Codec ℕ
plain = record { write = λ n. n ∷ []; read = from_text; empty = 0 }

plain-IsFaithful : IsFaithful plain
unfolding from_text
plain-IsFaithful = record { read-write = λ p. refl; write-ne-nil = λ p h. cc }

decode-encode_example :
    decode_frame plain (encode_frame plain config_updated 77 ++ 9 ∷ []) ≡ frame config_updated 77
decode-encode_example =
    decode-encode plain config_updated 77 (9 ∷ []) plain-IsFaithful (omega arith) (omega arith)

-- Frames are numbers, and the answer to a trigger carries its number.
abbrev small : Client ℕ ℕ
small = record {
  max_queue = 2;
  ws = none;
  connected = false;
  queue = 7 ∷ [];
  attempt = 3;
  stopped = false;
  timer = some 400;
  sent = [];
  delivered = [];
}

abbrev calls : List (Call ℕ ℕ)
calls = sends 8 ∷ fires true ∷ sends 9 ∷ gets (frame heartbeat 1) ∷ []

apply_all-Fits_example : Fits (apply_all 100 (λ n. n) small calls)
apply_all-Fits_example = apply_all-Fits 100 (λ n. n) small calls (unfold Fits in omega arith)

stopped_for_good_example :
    IsDown (apply_all 100 (λ n. n) (stop small) (closes ∷ sends 8 ∷ gets (frame heartbeat 1) ∷ []))
stopped_for_good_example =
    stopped_for_good 100 (λ n. n) small (closes ∷ sends 8 ∷ gets (frame heartbeat 1) ∷ [])
      (closes_late, (sends_late 8, (gets_late (frame heartbeat 1), tt)))
