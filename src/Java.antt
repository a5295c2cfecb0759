-- ===== src/Java.antt =====
-- The calls of library/src/main/jni/android.c and serial.c into the Java virtual machine. The machine is a
-- parameter: its classes with their members, its objects, and the heap that holds the objects' fields.
-- A NULL that is given to it where it does not take one is a fault, `none`.
mod Port
use Prim.Native.String.{String}
use serial_port.Prelude.{ℕ, Option, none, some}
use serial_port.Serial.{World, Calls, serial_open, serial_close}
use serial_port.LoopState.{
  ProxyState, state_ready, state_connected, state_port_opened, state_stopped, state_crashed,
}

-- The functions of `JNIEnv` that the code calls. A lookup by name is NULL where there is no such class
-- or member.
pub record Jvm : Type 1 where
  pub Class : Type 0
  pub Method : Type 0
  pub Field : Type 0
  pub Object : Type 0
  pub Heap : Type 0
  pub find_class : String → Option Class
  pub get_object_class : Object → Class
  pub get_method_id : Class → String → String → Option Method
  pub get_field_id : Class → String → String → Option Field
  pub get_static_field_id : Class → String → String → Option Field
  pub get_object_field : Object → Field → Heap → Option Object
  pub get_static_object_field : Class → Field → Heap → Option Object
  pub get_int_field : Object → Field → Heap → ℕ
  pub set_int_field : Object → Field → ℕ → Heap → Heap
  pub new_object : Class → Method → Heap → Option Object × Heap
  pub call_void_method : Object → Method → Option Object → Heap → Heap

-- What the lookup gives goes on; NULL is a fault.
abbrev pub with_found : {A B : Type 0} → Option A → (A → Option B) → Option B
with_found none f = none
with_found (some a) f = f a

abbrev pub state_name : ProxyState → String
state_name state_ready = "STATE_READY"
state_name state_connected = "STATE_CONNECTED"
state_name state_port_opened = "STATE_PORT_OPENED"
state_name state_stopped = "STATE_STOPPED"
state_name state_crashed = "STATE_CRASHED"

module _ (jvm : Jvm) where
  open jvm use {Object, Heap}

  -- `ConvertToJava`
  unfoldable pub convert_to_java : ProxyState → Heap → Option (Option Object)
  convert_to_java new h = with_found (jvm.find_class "android/serial/port/api/ProxyState") (λ class.
      with_found
        (jvm.get_static_field_id class (state_name new) "Landroid/serial/port/api/ProxyState;")
        (λ field. some (jvm.get_static_object_field class field h)))

  -- `changeState`
  unfoldable pub java_change_state : Object → ProxyState → Heap → Option Heap
  unfolding convert_to_java
  java_change_state thiz new h =
      with_found
        (jvm.get_method_id (jvm.get_object_class thiz) "changeState"
          "(Landroid/serial/port/api/ProxyState;)V")
        (λ method.
          with_found (convert_to_java new h)
            (λ value. some (jvm.call_void_method thiz method value h)))

  -- "Create a corresponding file descriptor"
  unfoldable pub file_descriptor : ℕ → Heap → Option (Object × Heap)
  file_descriptor fd h = with_found (jvm.find_class "java/io/FileDescriptor") (λ class.
      with_found (jvm.get_method_id class "<init>" "()V") (λ init.
        with_found (jvm.get_field_id class "descriptor" "I") (λ descriptor.
          let (made, h') = jvm.new_object class init h in
          with_found made (λ o. some (o, jvm.set_int_field o descriptor fd h')))))

  -- What is returned for a descriptor.
  unfoldable pub to_java : Heap → Option ℕ × World → Option (Option Object × World × Heap)
  unfolding file_descriptor
  to_java h (none, w) = some (none, w, h)
  to_java h (some fd, w) = with_found (file_descriptor fd h) (λ made. some (some made.0, w, made.1))

  -- `SerialPort.open`, to the Java object or NULL.
  unfoldable pub java_open :
      (ℕ → ℕ) → Calls → ℕ → World → Heap → Option (Option Object × World × Heap)
  unfolding to_java
  java_open cfmakeraw calls baudrate w h = to_java h (serial_open cfmakeraw calls baudrate w)

  -- `SerialPort.close`
  unfoldable pub java_close : Object → World → Heap → Option World
  java_close thiz w h = with_found (jvm.find_class "java/io/FileDescriptor") (λ class.
      with_found (jvm.get_field_id (jvm.get_object_class thiz) "fd" "Ljava/io/FileDescriptor;")
        (λ fd. with_found (jvm.get_field_id class "descriptor" "I") (λ descriptor.
          with_found (jvm.get_object_field thiz fd h)
            (λ o. some (serial_close (jvm.get_int_field o descriptor h) w)))))
