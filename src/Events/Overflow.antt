-- ===== src/Events/Overflow.antt =====
-- scripts/pd_fleet/events.py: proofs on the length of the whole log, which `_records` looks at and
-- `append` does not.
use project_development_skil.Base.{
  ℕ, ◌<◌, none, some, List, [], ◌∷◌, ◌++◌, ◌≡◌, refl, arith, Bool-cases, inl, inr,
}
use project_development_skil.Events.{
  FleetEvent, Json, EventLog, Lines, max_log_bytes, bytes, records, owns, append, append_all,
  replay, limit_fits,
}

over-records :
    (json : Json) (lines : Lines) → max_log_bytes < bytes json lines → records json lines ≡ none
unfolding records
over-records json lines h = ground arith

over-append :
    (json : Json) (log : EventLog) (e : FleetEvent) (lines : Lines)
    → max_log_bytes < bytes json lines
    → append json log e lines ≡ (none, lines)
unfolding append
over-append json log e lines h = elim (Bool-cases (owns log e)) [
  | inl own ↦ rw (own, over-records json lines h) refl
  | inr foreign ↦ rw foreign refl
]

over-append_all :
    (json : Json) (log : EventLog) (events : List FleetEvent) (lines : Lines)
    → max_log_bytes < bytes json lines
    → append_all json log events lines ≡ lines
unfolding append_all
over-append_all json log [] lines h = refl
over-append_all json log (e ∷ es) lines h =
    rw (over-append json log e lines h) (over-append_all json log es lines h)

over-replay :
    (json : Json) (limit : ℕ) (lines : Lines)
    → max_log_bytes < bytes json lines
    → replay json limit lines ≡ none
unfolding replay
over-replay json limit lines h = elim (Bool-cases (limit_fits limit)) [
  | inl fits ↦ rw (fits, over-records json lines h) refl
  | inr bad ↦ rw bad refl
]

-- After an append that succeeds and takes the log past its bound in bytes, no append changes the log
-- any more, whatever the events, every append and every replay raises.
pub append_overflow :
    (json : Json) (log : EventLog) (e : FleetEvent) (lines : Lines)
    → append json log e lines ≡ (some e, lines ++ e ∷ [])
    → max_log_bytes < bytes json (lines ++ e ∷ [])
    → (events : List FleetEvent) (f : FleetEvent) (limit : ℕ)
    → (append_all json log events (lines ++ e ∷ []) ≡ lines ++ e ∷ [])
      × ((append json log f (lines ++ e ∷ [])).0 ≡ none)
      × (replay json limit (lines ++ e ∷ []) ≡ none)
append_overflow json log e lines h over events f limit = (
  over-append_all json log events (lines ++ e ∷ []) over,
  rw (over-append json log f (lines ++ e ∷ []) over) refl,
  over-replay json limit (lines ++ e ∷ []) over,
)
