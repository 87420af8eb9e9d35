-- ===== src/Token/Keys.antt =====
-- State keys: what `create_state_key` writes `parse_state_key` takes apart.
use token_plugin.Prelude.{ℕ, ◌≡◌, ap, sym, ◌∙◌, [], ◌∷◌}
use token_plugin.Text.{Text}
use token_plugin.Text.Decimal.{str, str_inj}
use token_plugin.Text.Split.{split-join, NoDelimiter, str-NoDelimiter}
use token_plugin.Token.{create_state_key, parse_state_key}

-- The key of an address without ':' parses into the address and the number as written.
pub parse_state_key-create_state_key :
    (a : Text) (n : ℕ) → NoDelimiter a → parse_state_key (create_state_key a n) ≡ a ∷ str n ∷ []
unfolding parse_state_key create_state_key
parse_state_key-create_state_key a n h =
    split-join (a ∷ str n ∷ []) (λ e. cc e) (h, (str-NoDelimiter n, tt))

-- Two outputs of addresses without ':' have the same key only if they are the same.
pub create_state_key_inj :
    (a c : Text) (n m : ℕ)
    → NoDelimiter a
    → NoDelimiter c
    → create_state_key a n ≡ create_state_key c m
    → (a ≡ c) × (n ≡ m)
create_state_key_inj a c n m ha hc e =
    let parts : (a ∷ str n ∷ []) ≡ (c ∷ str m ∷ []) =
      sym (parse_state_key-create_state_key a n ha)
      ∙ ap parse_state_key e
      ∙ parse_state_key-create_state_key c m hc in
    (cc, str_inj n m (cc))
