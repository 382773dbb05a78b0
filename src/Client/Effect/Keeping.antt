-- ===== src/Client/Effect/Keeping.antt =====
-- Programs that leave a property of the world as it is, and programs that do and fail.
use effect_opcua.Prelude.{◌≡◌, refl, ap}
use effect_opcua.Client.Effect.{
  Exit, Effect, succeeded, failed, resume, and_then, widen, widen_exit,
}

module _ {World E : Type 0} (I : World → Type 0) where
  -- The program leaves the property as it is, whether it succeeds or not.
  abbrev pub Keeps : {A : Type 0} → Effect World E A → Type 0
  Keeps program = (w : World) → I w → I (program w).1

  -- The program fails, and leaves the property as it is.
  abbrev pub FailsKeeping : {A : Type 0} → Effect World E A → World → Type 0
  FailsKeeping program w = (e : E) × (w' : World) × (program w ≡ (failed e, w')) × I w'

  pub FailsKeeping-first :
      {A B : Type 0} (program : Effect World E A) (next : A → Effect World E B) (w : World)
      → FailsKeeping program w
      → FailsKeeping (and_then program next) w
  unfolding and_then
  FailsKeeping-first program next w (e, w', same, i) = (e, w', ap (resume next) same, i)

  resume-FailsKeeping :
      {A B : Type 0} (r : Exit E A × World) (next : A → Effect World E B)
      → I r.1
      → ((a : A) (v : World) → r ≡ (succeeded a, v) → I v → FailsKeeping (next a) v)
      → (e : E) × (w' : World) × (resume next r ≡ (failed e, w')) × I w'
  unfolding resume
  resume-FailsKeeping (succeeded a, v) next i h = h a v refl i
  resume-FailsKeeping (failed e, v) next i h = (e, v, refl, i)

  pub FailsKeeping-next :
      {A B : Type 0} (program : Effect World E A) (next : A → Effect World E B) (w : World)
      → Keeps program
      → ((a : A) (v : World) → program w ≡ (succeeded a, v) → I v → FailsKeeping (next a) v)
      → I w
      → FailsKeeping (and_then program next) w
  unfolding and_then
  FailsKeeping-next program next w keeps h i = resume-FailsKeeping (program w) next (keeps w i) h

  resume-Keeps :
      {A B : Type 0} (next : A → Effect World E B) (r : Exit E A × World)
      → I r.1
      → ((a : A) → Keeps (next a))
      → I (resume next r).1
  unfolding resume
  resume-Keeps next (succeeded a, v) i h = h a v i
  resume-Keeps next (failed e, v) i h = i

  pub Keeps-next :
      {A B : Type 0} (program : Effect World E A) (next : A → Effect World E B)
      → Keeps program
      → ((a : A) → Keeps (next a))
      → Keeps (and_then program next)
  unfolding and_then
  Keeps-next program next keeps h w i = resume-Keeps next (program w) (keeps w i) h

module _ {World E F : Type 0} (I : World → Type 0) (f : E → F) where
  pub Keeps-widen :
      {A : Type 0} (program : Effect World E A) → Keeps I program → Keeps I (widen f program)
  unfolding widen
  Keeps-widen program keeps w i = world_of (program w) (keeps w i)
    where
      world_of : {A : Type 0} (r : Exit E A × World) → I r.1 → I (widen_exit f r).1
      world_of (succeeded a, v) j = j
      world_of (failed e, v) j = j

  pub FailsKeeping-widen :
      {A : Type 0} (program : Effect World E A) (w : World)
      → FailsKeeping I program w
      → FailsKeeping I (widen f program) w
  unfolding widen
  FailsKeeping-widen program w (e, w', same, i) = (f e, w', ap (widen_exit f) same, i)
