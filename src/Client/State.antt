-- ===== src/Client/State.antt =====
-- The state of the client: its globals, the session, the answer buffer and the calls made.
use matter_lwm2m_bridge.Base.{ℕ, ℤ, Bool, Option, List, ◌∷◌, pos}
use matter_lwm2m_bridge.Json.{Json, Xml}
use matter_lwm2m_bridge.Client.Library.{Call, History}

-- The buffer of the caller of `CoapClientGet`: its bytes, and the positions outside it that have been
-- written.
pub record Buffer : Type 0 where
  pub cells : List ℕ
  pub strayed : List ℕ

-- The globals that the loaded files are kept in.
pub record Documents : Type 0 where
  pub sdf_model_file : Json
  pub sdf_mapping_lwm2m_file : Json
  pub sdf_mapping_matter_file : Json
  pub lwm2m_xml_file : Xml
  pub cluster_xml : Xml

pub record Client : Type 0 where
  pub ctx : Option ℕ
  pub optlist : Option ℕ
  pub have_response : Bool
  pub session : Option ℕ
  pub answer : Buffer
  pub documents : Documents
  pub trace : History

-- A step goes on with a value, jumps to `finish`, or lets an exception out; `running` is a loop that
-- has not ended within its fuel.
pub data Outcome (A : Type 0) : Type 0 where
  value : A → Outcome A
  finish : Outcome A
  threw : Outcome A
  running : Outcome A

abbrev pub Step : Type 0 → Type 0
Step A = Client → Outcome A × Client

infixl 5 ◌>>=◌ ◌>>◌
abbrev pub ◌>>=◌ : {A B : Type 0} → Step A → (A → Step B) → Step B
◌>>=◌ m f c =
    let (o, c') = m c in
    elim o [
      | value a ↦ f a c'
      | finish ↦ (finish, c')
      | threw ↦ (threw, c')
      | running ↦ (running, c')
    ]

abbrev pub ◌>>◌ : {B : Type 0} → Step (Unit {0}) → Step B → Step B
m >> k = m >>= λ _. k

abbrev pub return : {A : Type 0} → A → Step A
return a c = (value a, c)

abbrev pub goto_finish : {A : Type 0} → Step A
goto_finish c = (finish, c)

-- A call of the library is noted.
abbrev pub note : Call → Step (Unit {0})
note k c = (value tt, record c { trace = k ∷ c.trace })

-- What a function of the client returns.
pub data Run : Type 0 where
  returned : ℤ → Client → Run
  terminated : Client → Run
  looping : Client → Run

-- `EXIT_FAILURE`
abbrev pub exit_failure : ℤ
exit_failure = pos 1
