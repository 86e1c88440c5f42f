-- ===== src/ApiTypes.antt =====
-- aimless-onions/src/apitypes.rs: what the parties send one another.
use aimless_onions.Prelude.{ℕ, List}
use aimless_onions.NodeName.{NodeName}

-- `[u8; 16]`, as a list of bytes.
abbrev pub RelayKey : Type 0
RelayKey = List ℕ

-- A host name, as the codes of its characters, and a port.
abbrev pub Address : Type 0
Address = List ℕ × ℕ

pub record RegisterRelay : Type 0 where
  pub key : RelayKey
  pub address : List ℕ
  pub port : ℕ
  pub weight : ℕ

pub record GetHibeKeys : Type 0 where
  pub key : RelayKey

pub record GetRelayAddress : Type 0 where
  pub identity : ℕ

pub record KeyPair (PrivateKey : Type 0) : Type 0 where
  pub node : NodeName
  pub key : PrivateKey
