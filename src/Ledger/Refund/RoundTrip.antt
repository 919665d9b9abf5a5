-- ===== src/Ledger/Refund/RoundTrip.antt =====
-- A full refund undoes a reservation: every grant has its minutes back.
use sabermatic_dev.Prelude.{
  ℕ, ◌+◌, ◌-◌, ◌≤◌, ◌<◌, min, ◌≡◌, ◌≢◌, refl, sym, ap, inl, inr, true, false, ◌&&◌, List, [], ◌∷◌,
  ◌++◌, map, arith, ltb, All, All-imp, Bool-cases, select, ◌∙◌, some,
}
use sabermatic_dev.Prelude.Int.{neg}
use sabermatic_dev.Store.Rows.{Db, Grant, LedgerEntry, InterviewSession, Reason, session_reserve}
use sabermatic_dev.Store.Grants.Shares.{
  Share, share_of, updated, credit, credit_of, debit, debited, distribute, to_entry, sort_by_newest,
  insert_by_newest, reserve_share,
}
use sabermatic_dev.Store.Grants.Reserve.{reserve_minutes, reserved_shares}
use sabermatic_dev.Store.Grants.Refund.{
  refundable, reserves, apply_credits, full_refund_session_minutes, has_refund, is_entry_of,
  is_reserve,
}
use sabermatic_dev.Store.Sessions.{find_session}
use sabermatic_dev.Ledger.Shares.{Distinct, minutes_of, total_for-updated}
use sabermatic_dev.Ledger.Books.{IsBooked, IsWithin, reserve_entries}
use sabermatic_dev.Ledger.Reserve.Rows.{DistinctShares, reserved_shares_fit}
use sabermatic_dev.Ledger.Reserve.Sums.{share_of-eq-total_for}
use sabermatic_dev.Ledger.Reserve.Exact.{balance, reserve_minutes_exact}

-- A session without ledger entries.
abbrev pub IsUnbilled : ℕ → List LedgerEntry → Type 0
IsUnbilled session es = All (λ (e : LedgerEntry). is_entry_of session e ≡ false) es

has_refund-append_new :
    (user session now : ℕ) (es : List LedgerEntry) (rows : List Share)
    → IsUnbilled session es
    → has_refund session (es ++ reserve_entries user session session_reserve now rows) ≡ false
unfolding has_refund to_entry
has_refund-append_new user session now [] [] h = refl
has_refund-append_new user session now [] (s ∷ rest) h =
    ground (arith, has_refund-append_new user session now [] rest tt)
has_refund-append_new user session now (e ∷ es) rows h =
    ground (arith, h.0, has_refund-append_new user session now es rows h.1)

select_new :
    (user session now : ℕ) (es : List LedgerEntry) (rows : List Share)
    → IsUnbilled session es
    → select
        (λ (e : LedgerEntry). is_entry_of session e && is_reserve e.reason)
        (es ++ reserve_entries user session session_reserve now rows)
      ≡ reserve_entries user session session_reserve now rows
unfolding is_entry_of is_reserve to_entry
select_new user session now [] [] h = refl
select_new user session now [] (s ∷ rest) h = ground (arith, select_new user session now [] rest tt)
select_new user session now (e ∷ es) rows h =
    ground (arith, h.0, select_new user session now es rows h.1)

insert_first :
    (user session now : ℕ) (s : Share) (rows : List Share)
    → insert_by_newest
        (to_entry user session session_reserve now (neg s.minutes) s)
        (reserve_entries user session session_reserve now rows)
      ≡ reserve_entries user session session_reserve now (s ∷ rows)
unfolding insert_by_newest to_entry
insert_first user session now s [] = refl
insert_first user session now s (t ∷ rest) = ground arith

-- All entries of one reservation have one time.
sort_new :
    (user session now : ℕ) (rows : List Share)
    → sort_by_newest (reserve_entries user session session_reserve now rows)
      ≡ reserve_entries user session session_reserve now rows
unfolding sort_by_newest
sort_new user session now [] = refl
sort_new user session now (s ∷ rest) =
    rw (sort_new user session now rest) (insert_first user session now s rest)

map-reserve_share :
    (user session now : ℕ) (rows : List Share)
    → map reserve_share (reserve_entries user session session_reserve now rows) ≡ rows
unfolding reserve_share to_entry
map-reserve_share user session now [] = refl
map-reserve_share user session now (s ∷ rest) =
    ground (arith, map-reserve_share user session now rest)

distribute_next :
    (n k : ℕ) (s : Share) (rest : List Share)
    → n ≡ s.minutes + k
    → 0 < k
    → distribute n (s ∷ rest) ≡ s ∷ distribute k rest
unfolding distribute
distribute_next n k s rest e p =
    let left : n - min s.minutes n ≡ k = omega arith in
    let taken : min s.minutes n ≡ s.minutes = omega arith in
    let more : ltb 0 k ≡ true = ground arith in rw left (rw (taken, more))

-- To give out all that the rows hold is to fill each row.
distribute-filled :
    (n : ℕ) (rows : List Share)
    → All (λ (s : Share). 0 < s.minutes) rows
    → n ≡ minutes_of rows
    → distribute n rows ≡ rows
distribute-filled n [] h e = unfold distribute in refl
distribute-filled n (s ∷ []) h e = unfold distribute in ground arith
distribute-filled n (s ∷ t ∷ rest) h e =
    distribute_next n (minutes_of (t ∷ rest)) s (t ∷ rest) e (omega (arith, h.1.0))
    ∙ ap (λ (l : List Share). s ∷ l) (distribute-filled (minutes_of (t ∷ rest)) (t ∷ rest) h.1 refl)

updated_positive :
    (delta : Grant → ℕ) (gs : List Grant) → All (λ (s : Share). 0 < s.minutes) (updated delta gs)
unfolding updated
updated_positive delta [] = tt
updated_positive delta (g ∷ gs) = elim (Bool-cases (ltb 0 (delta g))) [
  | inl more ↦ rw more (ground arith, updated_positive delta gs)
  | inr nothing ↦ rw nothing (updated_positive delta gs)
]

absent-updated :
    (delta : Grant → ℕ) (id : ℕ) (gs : List Grant)
    → All (λ (h : Grant). h.id ≢ id) gs
    → All (λ (s : Share). s.grant ≢ id) (updated delta gs)
unfolding updated
absent-updated delta id [] h = tt
absent-updated delta id (g ∷ gs) h = elim (Bool-cases (ltb 0 (delta g))) [
  | inl more ↦ rw more (h.0, absent-updated delta id gs h.1)
  | inr nothing ↦ rw nothing (absent-updated delta id gs h.1)
]

DistinctShares-updated :
    (delta : Grant → ℕ) (gs : List Grant) → Distinct gs → DistinctShares (updated delta gs)
unfolding updated
DistinctShares-updated delta [] h = tt
DistinctShares-updated delta (g ∷ gs) h = elim (Bool-cases (ltb 0 (delta g))) [
  | inl more ↦ rw more (absent-updated delta g.id gs h.0, DistinctShares-updated delta gs h.1)
  | inr nothing ↦ rw nothing (DistinctShares-updated delta gs h.1)
]

share_of-debited :
    (rows : List Share) (gs : List Grant)
    → Distinct gs
    → All (λ (g : Grant). share_of g.id (debited rows gs) ≡ share_of g.id rows) gs
unfolding debited
share_of-debited rows gs d =
    All-imp _ _ gs
      (λ g h.
        share_of-eq-total_for g.id (updated (λ k. share_of k.id rows) gs)
          (DistinctShares-updated (λ k. share_of k.id rows) gs d)
        ∙ h)
      (total_for-updated (λ g. share_of g.id rows) gs d)

credit-debit :
    (back rows : List Share) (gs : List Grant)
    → All (λ (g : Grant). share_of g.id back ≡ share_of g.id rows) gs
    → All (λ (g : Grant). share_of g.id rows ≤ g.remaining_minutes) gs
    → All IsWithin gs
    → map (credit back) (map (debit rows) gs) ≡ gs
unfolding credit debit credit_of
credit-debit back rows [] same fits within = refl
credit-debit back rows (g ∷ gs) same fits within =
    ground (arith, same.0, fits.0, within.0, credit-debit back rows gs same.1 fits.1 within.1)

module _ (user session minutes : ℕ) (db : Db) (booked : IsBooked db)
    (unbilled : IsUnbilled session db.entries) (covered : minutes ≤ balance user db) where
  abbrev pub reserved : Db
  reserved = (reserve_minutes user session minutes db).0

  abbrev done : List Share
  done = (reserve_minutes user session minutes db).1

  reserves-done : reserves session reserved ≡ done
  unfolding reserves reserve_minutes
  reserves-done =
      let rows = debited (reserved_shares user minutes db) db.grants in
      rw (select_new user session db.now db.entries rows unbilled)
        (rw (sort_new user session db.now rows) (map-reserve_share user session db.now rows))

  done_positive : All (λ (s : Share). 0 < s.minutes) done
  unfolding reserve_minutes debited
  done_positive = updated_positive (λ g. share_of g.id (reserved_shares user minutes db)) db.grants

  done_filled : distribute minutes done ≡ done
  done_filled =
      distribute-filled minutes done done_positive
        (sym (reserve_minutes_exact user session minutes db booked covered).1)

  refundable_reserved :
      (s : InterviewSession)
      → find_session session db.sessions ≡ some s
      → s.reserved_minutes ≡ some minutes
      → refundable session reserved ≡ some (s, minutes)
  unfolding refundable reserve_minutes
  refundable_reserved s found held =
      let rows = debited (reserved_shares user minutes db) db.grants in
      simp (found, held, has_refund-append_new user session db.now db.entries rows unbilled)

  grants_back : map (credit done) reserved.grants ≡ db.grants
  unfolding reserve_minutes
  grants_back =
      let rows = reserved_shares user minutes db in
      credit-debit done rows db.grants (share_of-debited rows db.grants booked.distinct)
        (reserved_shares_fit user minutes db booked.distinct) booked.within

  -- If the books are right, the balance covers the minutes and the session has no ledger entry, a
  -- full refund right after the reservation gives all of it back: for the session's row, which has
  -- those minutes reserved, the table of grants is what it was before.
  pub reserve_full_refund :
      (reason : Reason) (s : InterviewSession)
      → find_session session db.sessions ≡ some s
      → s.reserved_minutes ≡ some minutes
      → (full_refund_session_minutes reason session reserved).0.grants ≡ db.grants
  unfolding full_refund_session_minutes apply_credits
  reserve_full_refund reason s found held =
      rw (refundable_reserved s found held, full_refund_session_minutes)
        (rw (reserves-done, done_filled) grants_back)
