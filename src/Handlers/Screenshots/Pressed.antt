-- ===== src/Handlers/Screenshots/Pressed.antt =====
-- The confirm button under a screenshot, from the client's message on.
use telegram_subscription_ma.Base.{ℕ, ◌≡◌, refl, ap, ◌∙◌, true, false, some, ◌∷◌, arith, any_row}
use telegram_subscription_ma.Base.Int.{pos, int_eq, int_eq_iff}
use telegram_subscription_ma.Base.Text.{Text, codes}
use telegram_subscription_ma.Base.Action.{ok, err}
use telegram_subscription_ma.Db.Models.{SubscriptionStatus, active, Subscription, Database}
use telegram_subscription_ma.Db.Exceptions.{invalid_transition}
use telegram_subscription_ma.Db.Users
use telegram_subscription_ma.Db.Users.{fits_integer}
use telegram_subscription_ma.Db.Payments.{has_ref}
use telegram_subscription_ma.Db.Invariant.{IsValid}
use telegram_subscription_ma.Services.PaymentService.{confirm_manual_payment}
use telegram_subscription_ma.Services.PaymentService.Confirmation.{confirm_manual_payment_twice}
use telegram_subscription_ma.Services.PaymentService.Settlement.{Confirmed}
use telegram_subscription_ma.Telegram.{
  send_menu, send_photo, answer_callback_query, Bot, Settings, World,
}
use telegram_subscription_ma.Keyboards.{main_menu, confirm_data, get_confirm_payment_keyboard}
use telegram_subscription_ma.Handlers.Chat.{Message, CallbackQuery, Chat}
use telegram_subscription_ma.Handlers.ManualPayment.{
  manual_ref, record_screenshot, subscription_id_of, subscription_id_of-confirm_data,
}
use telegram_subscription_ma.Handlers.ManualPayment.Recorded.{
  IsOwnedBy, record_screenshot-confirm_manual_payment,
}
use telegram_subscription_ma.Handlers.Screenshots.{
  payment_caption, thanks_for_screenshot, forward_screenshot, after_screenshot, receive_screenshot,
  already_handled, refuse_confirmation, tell_subscriber, after_confirmation, confirm_as_admin,
  confirm_payment,
}

module _ (settings : Settings) (bot : Bot) (now id : ℕ) (callback : CallbackQuery) (w : World)
    (by_admin : callback.from_user.id ≡ settings.admin_id)
    (button : callback.sent_data ≡ confirm_data id) where
  is_admin : int_eq callback.from_user.id settings.admin_id ≡ true
  is_admin = (int_eq_iff callback.from_user.id settings.admin_id).1 by_admin

  named : subscription_id_of callback.sent_data ≡ ok (pos id)
  named = ap subscription_id_of button ∙ subscription_id_of-confirm_data id

  -- The admin's press commits what `confirm_manual_payment` does.
  pressed :
      (s : Subscription) (db' : Database)
      → confirm_manual_payment now id w.database ≡ (ok s, db')
      → (confirm_payment settings bot now callback w).1.database ≡ db'
  unfolding confirm_payment confirm_as_admin after_confirmation tell_subscriber Users.get_by_id
  pressed s db' e = ground (arith, is_admin, named, e)

  -- A press that is refused is answered so.
  press_refused :
      (status : SubscriptionStatus)
      → confirm_manual_payment now id w.database
        ≡ (err (invalid_transition status active), w.database)
      → (confirm_payment settings bot now callback w).1
        ≡ record w { calls = answer_callback_query callback.id (some already_handled) ∷ w.calls }
  unfolding confirm_payment confirm_as_admin refuse_confirmation after_confirmation
  press_refused status e = ground (arith, is_admin, named, e)

-- Where the admin's press of the button of a row has confirmed it, on a valid database, another press,
-- at any later moment before anything else happens, is answered that the payment is handled already, and
-- nothing else is called and nothing is written.
pub confirm_payment_twice :
    (settings : Settings) (bot : Bot) (now id : ℕ) (callback : CallbackQuery) (w : World)
    (s : Subscription) (db' : Database)
    → IsValid w.database
    → callback.from_user.id ≡ settings.admin_id
    → callback.sent_data ≡ confirm_data id
    → confirm_manual_payment now id w.database ≡ (ok s, db')
    → (next_bot : Bot) (later : ℕ) (next : CallbackQuery) → next.from_user.id ≡ settings.admin_id
    → next.sent_data ≡ confirm_data id
    → let w' = (confirm_payment settings bot now callback w).1 in
      (w'.database ≡ db')
      × ((confirm_payment settings next_bot later next w').1
          ≡ record w' { calls = answer_callback_query next.id (some already_handled) ∷ w'.calls })
confirm_payment_twice settings bot now id callback w s db' v by_admin button done nb later next
      by_admin' button' =
    let w' = (confirm_payment settings bot now callback w).1 in
    let committed : w'.database ≡ db' =
      pressed settings bot now id callback w by_admin button s db' done in
    let (status, again) = confirm_manual_payment_twice now later id w.database s db' v done in
    (
      committed,
      press_refused settings nb later id next w' by_admin' button' status (rw committed again),
    )

module _ (settings : Settings) (bot : Bot) (now local_now : ℕ) (message : Message) (c : Chat) where
  abbrev new_ref : Text
  new_ref = manual_ref message.from_user.id message.message_id

  -- What the client and the admin see once the screenshot is recorded.
  abbrev told : Subscription → Database → Text → World
  told p db' file_id = record {
    database = db';
    calls =
        send_menu message.chat thanks_for_screenshot main_menu
        ∷ send_photo settings.admin_id file_id (payment_caption message)
            (get_confirm_payment_keyboard p.id)
        ∷ c.world.calls;
  }

  told_lem :
      (p : Subscription) (db' : Database) (file_id : Text)
      → message.photo ≡ some file_id
      → record_screenshot now local_now message.from_user.id message.message_id c.world.database
        ≡ (ok p, db')
      → (receive_screenshot settings bot now local_now message c).1.world ≡ told p db' file_id
  unfolding receive_screenshot after_screenshot forward_screenshot
  told_lem p db' file_id photo e = ground (arith, photo, e)

  -- A photo that arrives as a screenshot, in a message that is not recorded yet, from a client whose
  -- id the column holds, on a valid database: the bot sends it to the admin with a button and thanks
  -- the client, whether or not Telegram accepts these two messages, and the database stays valid and
  -- has a placeholder of the client's. The admin's press of that very button, at any later moment
  -- before anything else happens, commits a renewal for the placeholder's owner, the client.
  pub receive_screenshot-confirm_payment :
      (file_id : Text) (press_bot : Bot) (later : ℕ) (callback : CallbackQuery)
      → message.photo ≡ some file_id
      → IsValid c.world.database
      → fits_integer message.from_user.id ≡ true
      → any_row (has_ref (codes "manual") new_ref) c.world.database.payments ≡ false
      → callback.from_user.id ≡ settings.admin_id
      → let w' = (receive_screenshot settings bot now local_now message c).1.world in
        (p : Subscription) × (w'.calls
          ≡ send_menu message.chat thanks_for_screenshot main_menu
            ∷ send_photo settings.admin_id file_id
                (payment_caption message)
                (get_confirm_payment_keyboard p.id)
            ∷ c.world.calls)
        × IsValid w'.database
        × IsOwnedBy message.from_user.id p w'.database
        × ((s : Subscription) × (db'' : Database) × Confirmed later p w'.database s db''
            × ((confirm_payment settings press_bot later
                  (record callback { sent_data = confirm_data p.id })
                  w').1.database
                ≡ db''))
  receive_screenshot-confirm_payment file_id pb later callback photo v fits new by_admin =
      let (p, db', recorded, valid, owned, (s, db'', confirmed, c')) =
        record_screenshot-confirm_manual_payment now local_now message.from_user.id
          message.message_id later c.world.database v fits new in
      rw (told_lem p db' file_id photo recorded) (
        p,
        refl,
        valid,
        owned,
        (
          s,
          db'',
          c',
          pressed settings pb later p.id (record callback { sent_data = confirm_data p.id })
              (told p db' file_id) by_admin refl s db'' confirmed,
        ),
      )
