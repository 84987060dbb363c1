-- ===== src/Cw20Base/Migration.antt =====
-- `migrate` of contracts/cw20-base, from a version that did not keep allowances by spender.
use cw_plus.Base.{
  ℕ, ◌≡◌, ◌==◌, true, Option, none, some, List, [], ◌∷◌, ok, arith, refl, if◌then◌else◌,
}
use cw_plus.Base.Dict.{Dict, lookup, IsMap, Above, lookup-Above}
use cw_plus.Base.Dict.Pairs.{
  lookup_pair, insert_pair, ArePrefixes, lookup_pair-insert_pair, insert_pair-ArePrefixes,
}
use cw_plus.Host.{Host, Version}
use cw_plus.Cw20.{AllowanceResponse, Cw20ReceiveMsg}
use cw_plus.Cw20Base.State.{State}
use cw_plus.Cw20Base.Execute.{reverse_spenders, reverse_allowances, migrate}
use cw_plus.Cw20Base.Mirror.{IsMirrored, Allowances}

abbrev or_else {ℓ} : {A : Type ℓ} → Option A → Option A → Option A
or_else none b = b
or_else (some a) b = some a

reverse_spenders_lem :
    (owner : ℕ) (sp : Dict AllowanceResponse) (w : Allowances) (s o : ℕ)
    → IsMap sp
    → lookup_pair s o (reverse_spenders owner sp w)
      ≡ (if o == owner then or_else (lookup s sp) (lookup_pair s o w) else lookup_pair s o w)
unfolding reverse_spenders lookup
reverse_spenders_lem owner [] w s o is = ground arith
reverse_spenders_lem owner ((j, a) ∷ sp) w s o is = ground (
  arith,
  reverse_spenders_lem owner sp (insert_pair j owner a w) s o is.1,
  lookup_pair-insert_pair s o j owner a w,
  lookup-Above s j sp is.0,
)

reverse_spenders-ArePrefixes :
    (owner : ℕ) (sp : Dict AllowanceResponse) (w : Allowances)
    → ArePrefixes w
    → ArePrefixes (reverse_spenders owner sp w)
unfolding reverse_spenders
reverse_spenders-ArePrefixes owner [] w good = good
reverse_spenders-ArePrefixes owner ((j, a) ∷ sp) w good =
    reverse_spenders-ArePrefixes owner sp (insert_pair j owner a w)
      (insert_pair-ArePrefixes j owner a w good)

reverse_allowances-ArePrefixes :
    (m w : Allowances) → ArePrefixes w → ArePrefixes (reverse_allowances m w)
unfolding reverse_allowances
reverse_allowances-ArePrefixes [] w good = good
reverse_allowances-ArePrefixes ((owner, sp) ∷ m) w good =
    reverse_allowances-ArePrefixes m (reverse_spenders owner sp w)
      (reverse_spenders-ArePrefixes owner sp w good)

-- The maps of an owner that comes first, and of the others.
first-IsMap :
    (owner : ℕ) (sp : Dict AllowanceResponse) (m : Allowances)
    → ArePrefixes ((owner, sp) ∷ m)
    → IsMap sp
unfolding lookup
first-IsMap owner sp m good = ground (arith, good owner)

rest-ArePrefixes :
    (owner : ℕ) (sp : Dict AllowanceResponse) (m : Allowances)
    → Above owner m
    → ArePrefixes ((owner, sp) ∷ m)
    → ArePrefixes m
unfolding lookup
rest-ArePrefixes owner sp m a good k = ground (arith, good k, lookup-Above k owner m a)

reverse_allowances_lem :
    (m w : Allowances) (s o : ℕ)
    → IsMap m
    → ArePrefixes m
    → lookup_pair s o (reverse_allowances m w) ≡ or_else (lookup_pair o s m) (lookup_pair s o w)
unfolding reverse_allowances lookup_pair lookup
reverse_allowances_lem [] w s o is good = refl
reverse_allowances_lem ((owner, sp) ∷ m) w s o is good = ground (
  arith,
  reverse_allowances_lem m (reverse_spenders owner sp w) s o is.1
      (rest-ArePrefixes owner sp m is.0 good),
  reverse_spenders_lem owner sp w s o (first-IsMap owner sp m good),
  lookup-Above o owner m is.0,
)

no_prefixes : ArePrefixes {V = AllowanceResponse} []
unfolding lookup
no_prefixes k = tt

nothing_yet : (s o : ℕ) → lookup_pair {V = AllowanceResponse} s o [] ≡ none
unfolding lookup_pair lookup
nothing_yet s o = refl

else_none : (a b : Option AllowanceResponse) → b ≡ none → a ≡ or_else a b
else_none none b e = rw e refl
else_none (some a) b e = refl

-- A migration from a version before 0.14.0, which kept allowances by owner only, builds the map by
-- spender with the same entries, and leaves the map by owner and the balances as they were.
pub migrate-IsMirrored :
    (h : Host) (st st' : State) (ms : List Cw20ReceiveMsg) (original : Version)
    → migrate h st ≡ ok (st', ms)
    → h.ensure_from_older_version st.version ≡ ok original
    → h.is_before_0_14_0 original ≡ true
    → IsMap st.allowances
    → ArePrefixes st.allowances
    → st.allowances_spender ≡ []
    → IsMirrored st' × (st'.allowances ≡ st.allowances) × (st'.balances ≡ st.balances)
unfolding migrate
migrate-IsMirrored h st st' ms original e v old is good none_yet =
    let same : st'.allowances ≡ st.allowances = ground arith in
    let built : st'.allowances_spender ≡ reverse_allowances st.allowances [] = ground arith in
    (
      record {
        owners = λ k. rw same (good k);
        spenders = λ k. rw built (reverse_allowances-ArePrefixes st.allowances [] no_prefixes k);
        mirrored = λ o s.
            rw (same, built, reverse_allowances_lem st.allowances [] s o is good)
              (else_none _ _ (nothing_yet s o));
      },
      same,
      ground arith,
    )
