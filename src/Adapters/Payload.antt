-- ===== src/Adapters/Payload.antt =====
-- app/adapters/models.py: the payload of a source and its health. The data stay abstract.
use dumpectorist.Prelude.{Bool, true, false, ℕ, String, Option}

pub data AdapterState : Type 0 where
  ok degraded down : AdapterState

pub record AdapterHealth : Type 0 where
  pub name : String
  pub state : AdapterState
  pub latency_ms : Option ℕ
  pub message : String

abbrev pub is_usable : AdapterHealth → Bool
is_usable h = elim h.state [ AdapterState.ok ↦ true | _ ↦ false ]

pub record AdapterPayload (P : Type 0) : Type 0 where
  pub name : String
  pub content : P
  pub health : AdapterHealth
