-- ===== src/Service/Protocol.antt =====
-- The protocol that a view of src/server_service/view.cpp keeps to, with the database and the client.
pub mod Proofs
pub mod Scramble
pub mod Create
mod Tests
use proxy_for_distribution_s.Base.{
  ℕ, ◌+◌, Text, codes, text_eq, Bool, true, false, if◌then◌else◌, List, [], ◌∷◌, ◌++◌, ◌≡◌, ◌⊎◌,
  refl,
}
use proxy_for_distribution_s.Service.Statements.{Sql, begin, commit, rollback}
use proxy_for_distribution_s.Service.Session.{
  Event, asked, did, answered, Session, Flow, go, ret, fails, View,
}

-- How far a run has come. `opened n` is a transaction with `n` statements that all succeeded,
-- `spoiled` is one with a statement that failed.
pub data Phase : Type 0 where
  idle : Phase
  opened : ℕ → Phase
  spoiled : Phase
  -- A rollback has succeeded, or the last one was refused.
  rolled stuck : Phase
  committed : ℕ → Phase
  -- The client was told that it got its wish; or something else, with no transaction left, or with one
  -- left whose rollback was refused.
  served : ℕ → Phase
  told left wrong : Phase

unfoldable pub is_success : Text → Bool
is_success message = text_eq message (codes "success")

unfoldable pub undone : Bool → Phase
undone true = rolled
undone false = stuck

unfoldable pub within : ℕ → Sql → Bool → Phase
unfolding undone
within n rollback b = undone b
within n commit true = committed n
within n commit false = spoiled
within n begin b = wrong
within n q true = opened (n + 1)
within n q false = spoiled

unfoldable pub next_phase : Phase → Event → Phase
unfolding is_success within undone
next_phase wrong e = wrong
next_phase told e = wrong
next_phase left e = wrong
next_phase (served n) e = wrong
next_phase p (asked q) = p
next_phase idle (did begin true) = opened 0
next_phase idle (did begin false) = idle
next_phase idle (did q b) = wrong
next_phase idle (answered m) = if is_success m then wrong else told
next_phase (opened n) (did q b) = within n q b
next_phase (opened n) (answered m) = wrong
next_phase spoiled (did rollback b) = undone b
next_phase spoiled (did q b) = wrong
next_phase spoiled (answered m) = wrong
next_phase stuck (did rollback b) = undone b
next_phase stuck (did q b) = wrong
next_phase stuck (answered m) = if is_success m then wrong else left
next_phase rolled (did q b) = wrong
next_phase rolled (answered m) = if is_success m then wrong else told
next_phase (committed n) (did q b) = wrong
next_phase (committed n) (answered m) = if is_success m then served n else wrong

unfoldable pub phase : Phase → List Event → Phase
unfolding next_phase
phase p [] = p
phase p (e ∷ es) = phase (next_phase p e) es

-- The client was told why, and no transaction is left.
abbrev pub Told : Phase → Type 0
Told p = p ≡ told

-- The same, or a rollback was tried and refused.
abbrev pub Tried : Phase → Type 0
Tried p = (p ≡ told) ⊎ (p ≡ left)

-- Where a view goes on, its log has led to a phase of its own; where it returns, to one with `R`.
unfoldable pub Ends : {D A : Type 0} → (Phase → Type 0) → (A → Phase) → Flow D A → Type 0
unfolding phase
Ends R Q (go a s) = phase idle s.log ≡ Q a
Ends R Q (ret s) = R (phase idle s.log)
Ends R Q (fails e) = Unit
