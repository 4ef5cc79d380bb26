-- ===== src/Signals/AttackPhrases.antt =====
-- The expressions of app/services/validators/adversarial.py.
use insyta_api.Prelude.{ℕ, Bool, List, [], ◌∷◌, Text, txt, Unicode, map}
use insyta_api.Regex.{Re, many, opt, some_of, seq, seqs}
use insyta_api.Regex.Build.{word, word_edge, space, digit, lit, one_of, either}

module _ (u : Unicode) (same : ℕ → ℕ → Bool) where
  abbrev l : Text → Re
  l = lit same

  -- One of several literals.
  abbrev of : List Text → Re
  of ts = either (map l ts)

  -- A class of characters.
  abbrev cls : Text → Re
  cls = one_of same

  -- `\w*`, `\w+`, `\s+`, `\s*`, `\b`
  abbrev letters : Re
  letters = many (word u)

  abbrev letters1 : Re
  letters1 = some_of (word u)

  abbrev gap : Re
  gap = some_of (space u)

  abbrev gap0 : Re
  gap0 = many (space u)

  abbrev border : Re
  border = word_edge u

  -- Literals with spaces between them.
  abbrev spaced : List Text → Re
  spaced [] = seqs []
  spaced (t ∷ []) = l t
  spaced (t ∷ s ∷ ts) = seqs (l t ∷ gap ∷ spaced (s ∷ ts) ∷ [])

  -- Literals and spaces behind them, or nothing.
  abbrev maybe : List Text → Re
  maybe ts = opt (seq (of ts) gap)

  -- `_JAILBREAK_RE`
  unfoldable pub jailbreak_re : Re
  jailbreak_re = either (
      seqs (
        l (txt "ignor")
        ∷ cls (txt "aáe")
        ∷ letters
        ∷ gap
        ∷ either (
            l (txt "tus")
            ∷ l (txt "las")
            ∷ l (txt "mis")
            ∷ seq (l (txt "toda")) (opt (l (txt "s")))
            ∷ l (txt "lo")
            ∷ [])
        ∷ border
        ∷ [])
      ∷ seqs (
          l (txt "olvid")
          ∷ cls (txt "aáe")
          ∷ letters
          ∷ gap
          ∷ of (txt "tus" ∷ txt "las" ∷ txt "mis" ∷ txt "todo" ∷ txt "lo" ∷ [])
          ∷ border
          ∷ [])
      ∷ seqs (
          l (txt "ignore")
          ∷ gap
          ∷ maybe (txt "all" ∷ [])
          ∷ of (txt "previous" ∷ txt "prior" ∷ txt "above" ∷ [])
          ∷ border
          ∷ [])
      ∷ seqs (
          l (txt "disregard")
          ∷ gap
          ∷ maybe (txt "all" ∷ [])
          ∷ of (txt "previous" ∷ txt "prior" ∷ txt "your" ∷ [])
          ∷ border
          ∷ [])
      ∷ seqs (
          spaced (txt "de" ∷ txt "ahora" ∷ txt "en" ∷ [])
          ∷ gap
          ∷ either
              (seqs (l (txt "m") ∷ cls (txt "aá") ∷ l (txt "s") ∷ []) ∷ l (txt "adelante") ∷ [])
          ∷ border
          ∷ [])
      ∷ seqs (spaced (txt "a" ∷ txt "partir" ∷ txt "de" ∷ txt "ahora" ∷ []) ∷ border ∷ [])
      ∷ seqs (l (txt "actu") ∷ cls (txt "aá") ∷ gap ∷ l (txt "como") ∷ border ∷ [])
      ∷ seqs
          (l (txt "comport") ∷ cls (txt "aá") ∷ l (txt "te") ∷ gap ∷ l (txt "como") ∷ border ∷ [])
      ∷ seqs (
          l (txt "hac")
          ∷ cls (txt "eé")
          ∷ gap
          ∷ spaced (txt "de" ∷ txt "cuenta" ∷ txt "que" ∷ [])
          ∷ gap
          ∷ of (txt "sos" ∷ txt "eres" ∷ [])
          ∷ border
          ∷ [])
      ∷ seqs (
          l (txt "pretend")
          ∷ gap
          ∷ either (spaced (txt "to" ∷ txt "be" ∷ []) ∷ spaced (txt "you" ∷ txt "are" ∷ []) ∷ [])
          ∷ border
          ∷ [])
      ∷ seqs (spaced (txt "act" ∷ txt "as" ∷ []) ∷ border ∷ [])
      ∷ seqs (spaced (txt "you" ∷ txt "are" ∷ txt "now" ∷ []) ∷ border ∷ [])
      ∷ spaced (txt "modo" ∷ txt "desarrollador" ∷ [])
      ∷ spaced (txt "developer" ∷ txt "mode" ∷ [])
      ∷ seqs (border ∷ l (txt "DAN") ∷ border ∷ [])
      ∷ l (txt "jailbreak")
      ∷ [])

  -- `(me\s+)?(tu|el|tus|las)\s+(system\s+)?(prompt|instrucc\w+|indicac\w+)` after spaces.
  abbrev your_prompt : List Text → List Re → Re
  your_prompt whose more = seqs (
      gap
      ∷ maybe (txt "me" ∷ [])
      ∷ of whose
      ∷ gap
      ∷ maybe (txt "system" ∷ [])
      ∷ either (l (txt "prompt") ∷ seq (l (txt "instrucc")) letters1 ∷ more)
      ∷ [])

  -- `_INJECTION_RE`
  unfoldable pub injection_re : Re
  injection_re =
      let indicac = seq (l (txt "indicac")) letters1 in
      either (
        seqs (
          l (txt "repet")
          ∷ cls (txt "íie")
          ∷ letters
          ∷ your_prompt (txt "tu" ∷ txt "el" ∷ txt "tus" ∷ txt "las" ∷ []) (indicac ∷ [])
          ∷ [])
        ∷ seqs (
            l (txt "mostr")
            ∷ cls (txt "aá")
            ∷ letters
            ∷ your_prompt (txt "tu" ∷ txt "el" ∷ txt "tus" ∷ txt "las" ∷ []) (indicac ∷ [])
            ∷ [])
        ∷ seqs (
            l (txt "revel")
            ∷ cls (txt "aá")
            ∷ letters
            ∷ your_prompt (txt "tu" ∷ txt "el" ∷ txt "tus" ∷ []) []
            ∷ [])
        ∷ seqs (
            of (txt "reveal" ∷ txt "show" ∷ txt "print" ∷ txt "repeat" ∷ [])
            ∷ gap
            ∷ maybe (txt "your" ∷ [])
            ∷ maybe (txt "system" ∷ [])
            ∷ of (txt "prompt" ∷ txt "instructions" ∷ [])
            ∷ [])
        ∷ seqs (
            l (txt "cu")
            ∷ cls (txt "aá")
            ∷ l (txt "l")
            ∷ opt (l (txt "es"))
            ∷ gap
            ∷ spaced (txt "son" ∷ txt "tus" ∷ [])
            ∷ gap
            ∷ either (seq (l (txt "instrucc")) letters1 ∷ l (txt "reglas") ∷ indicac ∷ [])
            ∷ [])
        ∷ spaced (txt "system" ∷ txt "prompt" ∷ [])
        ∷ seqs (
            l (txt "instrucciones")
            ∷ gap
            ∷ either (
                l (txt "iniciales")
                ∷ spaced (txt "del" ∷ txt "sistema" ∷ [])
                ∷ spaced (txt "de" ∷ txt "arriba" ∷ [])
                ∷ l (txt "originales")
                ∷ [])
            ∷ [])
        ∷ [])

  -- `_LEGAL_RE`
  unfoldable pub legal_re : Re
  legal_re = either (
      seqs (
        of (txt "oferta" ∷ txt "promesa" ∷ txt "acuerdo" ∷ txt "contrato" ∷ txt "compromiso" ∷ [])
        ∷ gap
        ∷ maybe (txt "legalmente" ∷ [])
        ∷ l (txt "vinculante")
        ∷ [])
      ∷ seqs (
          l (txt "legalmente")
          ∷ gap
          ∷ either (
              l (txt "vinculante")
              ∷ seq (l (txt "obligad")) letters1
              ∷ seqs (l (txt "v") ∷ cls (txt "aá") ∷ l (txt "lid") ∷ letters1 ∷ [])
              ∷ [])
          ∷ [])
      ∷ spaced (txt "legally" ∷ txt "binding" ∷ [])
      ∷ seqs (
          l (txt "te")
          ∷ gap
          ∷ l (txt "compromet")
          ∷ cls (txt "eé")
          ∷ l (txt "s")
          ∷ gap
          ∷ l (txt "legalmente")
          ∷ [])
      ∷ spaced (txt "esto" ∷ txt "es" ∷ txt "un" ∷ txt "contrato" ∷ [])
      ∷ seqs (
          l (txt "qued")
          ∷ cls (txt "aá")
          ∷ gap
          ∷ maybe (txt "por" ∷ [])
          ∷ spaced (txt "escrito" ∷ txt "y" ∷ [])
          ∷ gap
          ∷ either (l (txt "es") ∷ seq (l (txt "ser")) (cls (txt "aá")) ∷ [])
          ∷ gap
          ∷ l (txt "v")
          ∷ cls (txt "aá")
          ∷ l (txt "lido")
          ∷ [])
      ∷ [])

  -- `_PRICE_LOCK_RE`
  unfoldable pub price_lock_re : Re
  price_lock_re =
      let accept = seqs (l (txt "acept") ∷ cls (txt "aá") ∷ l (txt "s") ∷ []) in
      let sell =
        seqs (l (txt "vend") ∷ cls (txt "eé") ∷ l (txt "rmelo") ∷ gap ∷ l (txt "a") ∷ []) in
      either (
        seqs (
          l (txt "confirm")
          ∷ cls (txt "aá")
          ∷ letters
          ∷ gap
          ∷ l (txt "que")
          ∷ gap
          ∷ either (
              spaced (txt "me" ∷ txt "lo" ∷ txt "vend" ∷ [])
              ∷ spaced (txt "te" ∷ txt "lo" ∷ txt "vend" ∷ [])
              ∷ accept
              ∷ spaced (txt "el" ∷ txt "precio" ∷ txt "es" ∷ [])
              ∷ [])
          ∷ [])
        ∷ seqs (accept ∷ gap ∷ sell ∷ [])
        ∷ seqs (
            l (txt "qued")
            ∷ cls (txt "oó")
            ∷ gap
            ∷ l (txt "pactad")
            ∷ letters1
            ∷ gap
            ∷ either (spaced (txt "el" ∷ txt "precio" ∷ []) ∷ l (txt "en") ∷ [])
            ∷ [])
        ∷ seqs (
            spaced (txt "entonces" ∷ txt "me" ∷ txt "lo" ∷ [])
            ∷ gap
            ∷ l (txt "vend")
            ∷ cls (txt "eé")
            ∷ l (txt "s")
            ∷ gap
            ∷ l (txt "a")
            ∷ gap0
            ∷ opt (l (txt "$"))
            ∷ digit u
            ∷ [])
        ∷ seqs (
            l (txt "est")
            ∷ cls (txt "aá")
            ∷ l (txt "s")
            ∷ gap
            ∷ l (txt "obligad")
            ∷ letters1
            ∷ gap
            ∷ l (txt "a")
            ∷ gap
            ∷ sell
            ∷ [])
        ∷ [])

  -- `_INSTRUCTION_WORDS_RE`
  unfoldable pub instruction_words_re : Re
  instruction_words_re = either (
      of (
        txt "ignor"
        ∷ txt "olvid"
        ∷ txt "system"
        ∷ txt "prompt"
        ∷ txt "instrucc"
        ∷ txt "indicac"
        ∷ txt "act as"
        ∷ [])
      ∷ seqs (l (txt "actu") ∷ cls (txt "aá") ∷ l (txt " como") ∷ [])
      ∷ of (txt "sos ahora" ∷ txt "you are" ∷ txt "reglas" ∷ txt "developer" ∷ txt "jailbreak" ∷ [])
      ∷ [])

  -- `_BOT_CEDE_RE`
  unfoldable pub bot_cede_re : Re
  bot_cede_re =
      let will : Text → Re = λ t. seq (l t) (cls (txt "eé")) in
      let comma = opt (l (txt ",")) in
      either (
        seqs (
          spaced (txt "de" ∷ txt "acuerdo" ∷ [])
          ∷ comma
          ∷ gap
          ∷ maybe (txt "ahora" ∷ [])
          ∷ either (l (txt "soy") ∷ will (txt "actuar") ∷ will (txt "ser") ∷ [])
          ∷ [])
        ∷ seqs (
            l (txt "entendido")
            ∷ comma
            ∷ gap
            ∷ either (will (txt "ignorar") ∷ will (txt "olvidar") ∷ will (txt "actuar") ∷ [])
            ∷ [])
        ∷ seqs (
            l (txt "ok")
            ∷ comma
            ∷ gap
            ∷ either (
                will (txt "actuar")
                ∷ will (txt "ser")
                ∷ spaced (txt "ahora" ∷ txt "soy" ∷ [])
                ∷ will (txt "ignorar")
                ∷ [])
            ∷ [])
        ∷ seqs (spaced (txt "mis" ∷ txt "instrucciones" ∷ txt "son" ∷ []) ∷ border ∷ [])
        ∷ seqs (spaced (txt "mi" ∷ txt "system" ∷ txt "prompt" ∷ []) ∷ border ∷ [])
        ∷ seqs (
            l (txt "fui")
            ∷ gap
            ∷ either (
                seq (l (txt "programad")) letters1
                ∷ seq (l (txt "cread")) letters1
                ∷ seq (l (txt "entrenad")) letters1
                ∷ [])
            ∷ gap
            ∷ of (txt "para" ∷ txt "con" ∷ txt "como" ∷ [])
            ∷ [])
        ∷ spaced (txt "as" ∷ txt "you" ∷ txt "wish" ∷ [])
        ∷ seqs (l (txt "sure") ∷ comma ∷ gap ∷ spaced (txt "i" ∷ txt "am" ∷ txt "now" ∷ []) ∷ [])
        ∷ seqs (
            opt (seqs (l (txt "s") ∷ cls (txt "ií") ∷ comma ∷ gap ∷ []))
            ∷ either (
                l (txt "es")
                ∷ seqs (l (txt "ser") ∷ cls (txt "ií") ∷ l (txt "a") ∷ [])
                ∷ spaced (txt "confirmo" ∷ txt "que" ∷ txt "es" ∷ [])
                ∷ [])
            ∷ gap
            ∷ maybe (txt "una" ∷ [])
            ∷ maybe (txt "oferta" ∷ [])
            ∷ spaced (txt "legalmente" ∷ txt "vinculante" ∷ [])
            ∷ [])
        ∷ spaced (txt "me" ∷ txt "comprometo" ∷ txt "legalmente" ∷ [])
        ∷ seqs (
            spaced (txt "confirmo" ∷ txt "que" ∷ [])
            ∷ gap
            ∷ either (l (txt "es") ∷ seq (l (txt "ser")) (cls (txt "aá")) ∷ [])
            ∷ gap
            ∷ either (
                spaced (txt "un" ∷ txt "contrato" ∷ [])
                ∷ l (txt "legalmente")
                ∷ l (txt "vinculante")
                ∷ [])
            ∷ [])
        ∷ [])
