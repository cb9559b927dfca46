-- ===== src/Servers/Since.antt =====
-- What the servers under examples/ went through since a state: a run of requests.
use passkey_auth_rs.Deps.{World}

-- The requests served since `first`, each of them as `quiet` says, with `holds` true after each.
pub data Since {S Request : Type 0} (serve : World → Request → S → S)
    (quiet : World → Request → S → Type 0) (holds : S → Type 0) (first : S) : S → Type 0 where
  at_once : Since serve quiet holds first first
  and_then :
      (world : World) (request : Request) (state : S)
      → Since serve quiet holds first state
      → quiet world request state
      → holds (serve world request state)
      → Since serve quiet holds first (serve world request state)
