-- ===== src/Protocol/Response.antt =====
-- `ServiceResponse` (protocol/src/traits/executor.rs): what every call of a service returns.
use muta.Prelude.{
  Bool, Bool-cases, Default, String, false, if◌then◌else◌, inl, inr, leb, nat_eq, not, true, ℕ, ◌%◌,
  ◌+◌, ◌==◌, ◌≡◌,
}
use muta.Protocol.Primitive.{u64_mod}
use muta.Protocol.Context.{ServiceContext, sub_cycles}

pub record ServiceResponse {ℓ} (T : Type ℓ) : Type ℓ where
  pub code : ℕ
  pub succeed_data : T
  pub error_message : String

module _ {ℓ} {T : Type ℓ} where
  abbrev pub from_error : ⦃d : Default T⦄ → ℕ → String → ServiceResponse T
  from_error ⦃d⦄ code message = record {
    code = code;
    succeed_data = d.default;
    error_message = message;
  }

  abbrev pub from_succeed : T → ServiceResponse T
  from_succeed a = record { code = 0; succeed_data = a; error_message = "" }

  abbrev pub is_error : ServiceResponse T → Bool
  is_error r = not (r.code == 0)

-- What a call leaves: its response, the state of the service, the context.
pub record Outcome {ℓ κ} (S : Type ℓ) (T : Type κ) : Type (ℓ ⊔ κ) where
  pub response : ServiceResponse T
  pub state : S
  pub context : ServiceContext

-- What `#[cycles(n)]` returns when the cycles are not there.
abbrev pub out_of_cycles {ℓ κ} :
    {S : Type ℓ} {T : Type κ} ⦃d : Default T⦄ → S → ServiceContext → Outcome S T
out_of_cycles s ctx = record {
  response = from_error 3 "cycles macro consume cycles fialed: out of cycles";
  state = s;
  context = ctx;
}

-- The attribute `#[cycles(n)]` (binding-macro/src/cycles.rs): the body runs if the cycles are there.
unfoldable pub cycles {ℓ κ} :
    {S : Type ℓ} {T : Type κ} ⦃d : Default T⦄
    → ℕ
    → (S → ServiceContext → Outcome S T)
    → S
    → ServiceContext
    → Outcome S T
unfolding sub_cycles
cycles n body s ctx =
    let (ctx', paid) = sub_cycles ctx n in if paid then body s ctx' else out_of_cycles s ctx

-- What holds of the body's outcome and of the refusal holds of a metered call.
pub cycles_cases {ℓ κ ι} :
    {S : Type ℓ} {T : Type κ} ⦃d : Default T⦄ (P : Outcome S T → Type ι) (n : ℕ)
    (body : S → ServiceContext → Outcome S T) (s : S) (ctx : ServiceContext)
    → ((used : ℕ) → P (body s (record ctx { cycles_used = used })))
    → P (out_of_cycles s ctx)
    → P (cycles n body s ctx)
unfolding cycles
cycles_cases P n body s ctx paid refused =
    elim (Bool-cases (leb ((ctx.cycles_used + n) % u64_mod) ctx.cycles_limit)) [
      | inl e ↦ rw (e, cycles, sub_cycles) (paid _)
      | inr e ↦ rw (e, cycles, sub_cycles) refused
    ]

-- The call with the cycles there, and the call without.
pub cycles-paid {ℓ κ} :
    {S : Type ℓ} {T : Type κ} ⦃d : Default T⦄ (n : ℕ) (body : S → ServiceContext → Outcome S T)
    (s : S) (ctx : ServiceContext)
    → leb ((ctx.cycles_used + n) % u64_mod) ctx.cycles_limit ≡ true
    → cycles n body s ctx ≡ body s (record ctx { cycles_used = (ctx.cycles_used + n) % u64_mod })
unfolding cycles
cycles-paid n body s ctx e = rw (e, cycles, sub_cycles)

pub cycles-refused {ℓ κ} :
    {S : Type ℓ} {T : Type κ} ⦃d : Default T⦄ (n : ℕ) (body : S → ServiceContext → Outcome S T)
    (s : S) (ctx : ServiceContext)
    → leb ((ctx.cycles_used + n) % u64_mod) ctx.cycles_limit ≡ false
    → cycles n body s ctx ≡ out_of_cycles s ctx
unfolding cycles
cycles-refused n body s ctx e = rw (e, cycles, sub_cycles)
