-- ===== src/Consensus/Splits.antt =====
-- The roots that a block takes from the front of a status's lists (core/consensus/src/status.rs).
use muta.Prelude.{
  List, [], ap, append_assoc, arith, drop, guard_some, length, ltb, nat_beq, nat_beq_iff, not, refl,
  some, some_injective, suc, sym, true, zero, ℕ, ◌++◌, ◌-◌, ◌||◌, ◌∙◌, ◌∷◌, ◌≡◌, ◌≤◌,
}
use muta.Consensus.Types.{Block}
use muta.Consensus.Status.{CurrentConsensusStatus, check_list_roots, split_off, zip_equal}
use muta.Protocol.{cycles}

drop-zip_equal :
    (xs ys : List ℕ)
    → length ys ≤ length xs
    → zip_equal xs ys ≡ true
    → ys ++ drop (length ys) xs ≡ xs
unfolding zip_equal
drop-zip_equal [] [] le e = refl
drop-zip_equal [] (y ∷ ys) le e = ground (arith, le)
drop-zip_equal (x ∷ xs) [] le e = refl
drop-zip_equal (x ∷ xs) (y ∷ ys) le e =
    ground (arith, e, nat_beq_iff x y, drop-zip_equal xs ys (omega (arith, le)))

-- A list that passes the check is the beginning of the cache.
pub drop-check_list_roots :
    (xs ys : List ℕ) → check_list_roots xs ys ≡ true → ys ++ drop (length ys) xs ≡ xs
unfolding check_list_roots
drop-check_list_roots xs ys e = ground (arith, e, drop-zip_equal xs ys)

pub drop-prefix :
    (xs ys before : List ℕ) (n : ℕ)
    → n ≡ length ys
    → check_list_roots xs ys ≡ true
    → before ++ xs ≡ (before ++ ys) ++ drop n xs
drop-prefix xs ys before n e checked = sym (
    append_assoc before ys (drop n xs)
    ∙ ap (λ l. before ++ l) (ap (λ k. ys ++ drop k xs) e ∙ drop-check_list_roots xs ys checked))

pub length-drop : {A : Type 0} (n : ℕ) (xs : List A) → length (drop n xs) ≡ length xs - n
length-drop zero xs = omega arith
length-drop (suc n) [] = omega arith
length-drop (suc n) (x ∷ xs) = omega (arith, length-drop n xs)

-- What `split_off` drops from a status.
abbrev pub after_split : ℕ → CurrentConsensusStatus → CurrentConsensusStatus
after_split len s = record s {
  list_cycles_used = drop len s.list_cycles_used;
  list_confirm_root = drop len s.list_confirm_root;
  list_receipt_root = drop len s.list_receipt_root;
  list_state_root = drop len s.list_state_root;
}

-- What a block passes that `split_off` takes.
pub record Splits (block : Block) (s s' : CurrentConsensusStatus) : Type 0 where
  pub cycles_length : length block.header.confirm_root ≡ length block.header.cycles_used
  pub receipt_length : length block.header.confirm_root ≡ length block.header.receipt_root
  pub confirm_checked : check_list_roots s.list_confirm_root block.header.confirm_root ≡ true
  pub receipt_checked : check_list_roots s.list_receipt_root block.header.receipt_root ≡ true
  pub cycles_checked : check_list_roots s.list_cycles_used block.header.cycles_used ≡ true
  pub state_roots : length block.header.confirm_root ≤ length s.list_state_root
  pub after : after_split (length block.header.confirm_root) s ≡ s'

pub split_off-Splits :
    (block : Block) (s s' : CurrentConsensusStatus)
    → split_off block s ≡ some s'
    → Splits block s s'
unfolding split_off
split_off-Splits block s s' h =
    let header = block.header in
    let len = length header.confirm_root in
    let (lengths, r1) =
      guard_some
        (not (nat_beq len (length header.cycles_used))
          || not (nat_beq len (length header.receipt_root)))
        _ s' h in
    let (cycles, r2) =
      guard_some (not (check_list_roots s.list_cycles_used header.cycles_used)) _ s' r1 in
    let (confirm, r3) =
      guard_some (not (check_list_roots s.list_confirm_root header.confirm_root)) _ s' r2 in
    let (receipt, r4) =
      guard_some (not (check_list_roots s.list_receipt_root header.receipt_root)) _ s' r3 in
    let (states, r5) = guard_some (ltb (length s.list_state_root) len) _ s' r4 in
    record {
      cycles_length = ground (arith, lengths);
      receipt_length = ground (arith, lengths);
      confirm_checked = ground (arith, confirm);
      receipt_checked = ground (arith, receipt);
      cycles_checked = ground (arith, cycles);
      state_roots = ground (arith, states);
      after = some_injective _ s' r5;
    }
