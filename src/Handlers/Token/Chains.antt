-- ===== src/Handlers/Token/Chains.antt =====
-- src/handlers.rs: what a chain of fallible steps that answers presupposes of its steps.
use pocket_oid.Base.{◌≡◌, refl, Option, none, some}
use pocket_oid.Handlers.Token.{from_rendered}
use pocket_oid.Http.{ApiResult, ApiError, ok, err, panic, diverge, ◌>>=◌, required}
use pocket_oid.Json.{Value}
use pocket_oid.Template.{Rendered}

pub bind-ok :
    {A B : Type 0} (r : ApiResult A) (f : A → ApiResult B) (b : B)
    → (r >>= f) ≡ ok b
    → (a : A) × (r ≡ ok a) × (f a ≡ ok b)
bind-ok (ok a) f b h = (a, refl, h)
bind-ok (err e) f b h = cc
bind-ok panic f b h = cc
bind-ok diverge f b h = cc

pub required-ok :
    {A : Type 0} (o : Option A) (e : ApiError) (a : A) → required o e ≡ ok a → o ≡ some a
required-ok none e a h = cc
required-ok (some b) e a h = cc

pub from_rendered-ok :
    (r : Rendered Value) (claims : Value) → from_rendered r ≡ ok claims → r ≡ Rendered.ok claims
from_rendered-ok (Rendered.ok c) claims h = cc
from_rendered-ok (Rendered.err e) claims h = cc
from_rendered-ok Rendered.running claims h = cc
