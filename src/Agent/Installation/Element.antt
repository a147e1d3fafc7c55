-- ===== src/Agent/Installation/Element.antt =====
-- Organization ids that stand for one element of a path.
use agent_smith_go.Base.{
  ℕ, ◌≡◌, ◌≢◌, refl, Bool, false, List, [], ◌∷◌, ◌++◌, arith, Bytes, codes, is_empty, eq_bytes,
  split_byte, All,
}
use agent_smith_go.Utils.Filepath.{push_element}

-- Neither empty, nor "." or "..", and without a slash.
pub record IsElement (s : Bytes) : Type 0 where
  pub no_slash : All (λ (c : ℕ). c ≢ b'/') s
  pub not_empty : is_empty s ≡ false
  pub not_dot : eq_bytes s (codes ".") ≡ false
  pub not_dots : eq_bytes s (codes "..") ≡ false

-- A slash behind an element ends it.
pub split_byte-element :
    (s t : Bytes)
    → All (λ (c : ℕ). c ≢ b'/') s
    → split_byte b'/' (s ++ (b'/' ∷ t)) ≡ s ∷ split_byte b'/' t
unfolding split_byte
split_byte-element [] t h = refl
split_byte-element (c ∷ s) t h = ground (arith, split_byte-element s t h.1)

pub split_byte_whole : (s : Bytes) → All (λ (c : ℕ). c ≢ b'/') s → split_byte b'/' s ≡ s ∷ []
unfolding split_byte
split_byte_whole [] h = refl
split_byte_whole (c ∷ s) h = ground (arith, split_byte_whole s h.1)

pub push_element_lem :
    (rooted : Bool) (s : Bytes) (st : List Bytes) → IsElement s → push_element rooted s st ≡ s ∷ st
unfolding push_element
push_element_lem rooted s st e = rw (e.not_empty, e.not_dot, e.not_dots)
