-- ===== src/Pollish/Submit.antt =====
-- The five entry points of src/unix/pollish.c: they differ in the kind that they store. `isfd` is what
-- `yoi_unix_isfd` answers, and the buffers are arguments of the operation, which is a parameter.
use libyaooi.Prelude.{
  ℕ, ◌≡◌, ◌≢◌, ◌<◌, suc, refl, sym, ◌∙◌, Bool, true, false, List, [], ◌∷◌, ◌==◌, if◌then◌else◌,
  arith, length,
}
use libyaooi.Errno.{Code}
use libyaooi.Dlist.Chain.{has, apart}
use libyaooi.Pollish.{Kind, Desc, readable, writable, unsigned, prepare, is_eperm, req_start}
use libyaooi.Pollish.Counted.{Counted, waiting, req_start-Counted}

abbrev pub with_kind : (ℕ → Kind) → ℕ → Kind → ℕ → Kind
with_kind kind r k s = if s == r then k else kind s

module _ {B : Type 0} (setmask : ℕ → ℕ → B → Code × B) (cancel r done : ℕ) (isfd : Bool) where
  unfoldable pub submit : Kind → Desc B → Code × Desc B
  submit k d =
      if isfd
      then req_start setmask cancel r done (record d { kind = with_kind d.kind r k })
      else (Code.ebadfd, d)

  abbrev pub yoa_read : Desc B → Code × Desc B
  yoa_read d = submit Kind.read d

  abbrev pub yoa_write : Desc B → Code × Desc B
  yoa_write d = submit Kind.write d

  abbrev pub yoa_file_read : Desc B → Code × Desc B
  yoa_file_read d = submit Kind.pread d

  abbrev pub yoa_file_write : Desc B → Code × Desc B
  yoa_file_write d = submit Kind.pwrite d

  abbrev pub yoa_socket_accept : Desc B → Code × Desc B
  yoa_socket_accept d = submit Kind.accept d

waiting-with_kind :
    (kind : ℕ → Kind) (m r : ℕ) (k : Kind) (ys : List ℕ)
    → ((s : ℕ) → has s ys ≡ true → (s == r) ≡ false)
    → waiting (with_kind kind r k) m ys ≡ waiting kind m ys
unfolding waiting
waiting-with_kind kind m r k [] f = refl
waiting-with_kind kind m r k (y ∷ ys) f =
    rw (f y (ground arith), waiting-with_kind kind m r k ys (λ s h. f s (ground arith))) refl

-- An entry point changes nothing and returns YO_EBADFD where the handle is no descriptor. Else, if the poller does not
-- refuse with EPERM, the request is the first of the pending ones and the counters count it with its new kind, if they
-- stay below the limit of an `unsigned`.
pub submit-Counted :
    {B : Type 0} (setmask : ℕ → ℕ → B → Code × B) (cancel r done : ℕ) (isfd : Bool) (k : Kind)
    (d : Desc B) (xs : List ℕ)
    → Counted d xs
    → r ≢ 0
    → has r xs ≡ false
    → suc (length xs) < unsigned
    → is_eperm ((prepare setmask cancel r (record d { kind = with_kind d.kind r k })).0) ≡ false
    → if isfd
      then Counted ((submit setmask cancel r done isfd k d).1) (r ∷ xs)
      else submit setmask cancel r done isfd k d ≡ (Code.ebadfd, d)
unfolding submit
submit-Counted setmask cancel r done false k d xs (c, rs, ws, lt) ne out room e = refl
submit-Counted setmask cancel r done true k d xs (c, rs, ws, lt) ne out room e =
    let kept : (m : ℕ) → waiting (with_kind d.kind r k) m xs ≡ waiting d.kind m xs =
      λ m. waiting-with_kind d.kind m r k xs (λ s h. apart s r xs out h) in
    req_start-Counted setmask cancel r done (record d { kind = with_kind d.kind r k }) xs
      (c, rs ∙ sym (kept readable), ws ∙ sym (kept writable), lt) ne out room e
