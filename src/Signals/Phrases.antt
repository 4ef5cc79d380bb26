-- ===== src/Signals/Phrases.antt =====
-- The expressions of app/services/fraud.py.
use insyta_api.Prelude.{ℕ, Bool, [], ◌∷◌, txt, Unicode}
use insyta_api.Regex.{Re, many, opt, some_of, seqs}
use insyta_api.Regex.Build.{word, word_edge, lit, one_of, either}

module _ (u : Unicode) (same : ℕ → ℕ → Bool) where
  -- An expression between two word edges.
  abbrev whole_words : Re → Re
  whole_words r = seqs (word_edge u ∷ r ∷ word_edge u ∷ [])

  -- `_OFF_CHANNEL_RE`
  unfoldable pub off_channel_re : Re
  off_channel_re =
      let l = lit same in
      let w = some_of (word u) in
      whole_words (
        either (
          l (txt "western union")
          ∷ l (txt "giro")
          ∷ l (txt "efectivo aparte")
          ∷ seqs (l (txt "por fuera") ∷ opt (l (txt " del")) ∷ [])
          ∷ seqs (l (txt "transferenc") ∷ many (word u) ∷ l (txt " directa") ∷ [])
          ∷ seqs (l (txt "pag") ∷ w ∷ l (txt " aparte") ∷ [])
          ∷ seqs (l (txt "mercado") ∷ opt (l (txt " ")) ∷ l (txt "pago personal") ∷ [])
          ∷ l (txt "cripto")
          ∷ l (txt "usdt")
          ∷ l (txt "binance")
          ∷ []))

  -- `_PRICE_PRESSURE_RE`
  unfoldable pub price_pressure_re : Re
  price_pressure_re =
      let l = lit same in
      let w = some_of (word u) in
      whole_words (
        either (
          seqs (l (txt "me dijeron que sal") ∷ w ∷ [])
          ∷ seqs
              (l (txt "me hac") ∷ w ∷ l (txt " ") ∷ opt (l (txt "un ")) ∷ l (txt "descuento") ∷ [])
          ∷ seqs (l (txt "m") ∷ one_of same (txt "aá") ∷ l (txt "s barato") ∷ [])
          ∷ seqs (l (txt "me lo dej") ∷ w ∷ l (txt " en") ∷ [])
          ∷ seqs (
              l (txt "otro ")
              ∷ either (l (txt "local") ∷ l (txt "lugar") ∷ [])
              ∷ l (txt " me lo")
              ∷ [])
          ∷ l (txt "precio especial")
          ∷ []))

  -- `_THIRD_PARTY_RE`
  unfoldable pub third_party_re : Re
  third_party_re =
      let l = lit same in
      let w = some_of (word u) in
      whole_words (
        either (
          seqs (l (txt "a nombre de otr") ∷ w ∷ [])
          ∷ seqs (
              l (txt "datos de ")
              ∷ either (l (txt "mi") ∷ l (txt "un") ∷ [])
              ∷ l (txt " ")
              ∷ either (
                  seqs (l (txt "amig") ∷ w ∷ [])
                  ∷ l (txt "familiar")
                  ∷ l (txt "tercero")
                  ∷ seqs (l (txt "conocid") ∷ w ∷ [])
                  ∷ [])
              ∷ [])
          ∷ l (txt "dni de")
          ∷ seqs (l (txt "tarjeta de otr") ∷ w ∷ [])
          ∷ seqs (l (txt "no es m") ∷ one_of same (txt "ií") ∷ l (txt "o el") ∷ [])
          ∷ []))
