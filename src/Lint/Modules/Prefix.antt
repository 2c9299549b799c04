-- ===== src/Lint/Modules/Prefix.antt =====
-- What `FilesBelongToSameModule` says of the header's path.
use epiphany_bsp.Base.{
  ◌-◌, ◌≡◌, sym, ap, ◌∙◌, ◌≢◌, true, some, [], ◌∷◌, ◌++◌, length, take, arith, take-append-drop,
}
use epiphany_bsp.Base.Text.{Text, ends_with, ends_with-drop}
use epiphany_bsp.Lint.Modules.{cut, same_module, files_belong_to_same_module, cc_module, h_module}

cut-append : (s p : Text) → p ≢ [] → ends_with s p ≡ true → cut s p ++ p ≡ s
unfolding cut
cut-append s [] n e = ground arith
cut-append s (c ∷ p) n e =
    ap (λ t. take (length s - length (c ∷ p)) s ++ t) (sym (ends_with-drop s (c ∷ p) e))
    ∙ take-append-drop (length s - length (c ∷ p)) s

-- Where the linter finds that a `.cc` file and a header with a name belong to the same module, the
-- prefix that it gives, put before the header's module, is the module of the `.cc` file.
pub files_belong_to_same_module-prefix :
    (filename_cc filename_h cc h prefix : Text)
    → cc_module filename_cc ≡ some cc
    → h_module filename_h ≡ some h
    → h ≢ []
    → files_belong_to_same_module filename_cc filename_h ≡ (true, prefix)
    → prefix ++ h ≡ cc
unfolding files_belong_to_same_module same_module
files_belong_to_same_module-prefix filename_cc filename_h cc h prefix ec eh n e =
    ground (arith, cut-append cc h n)
